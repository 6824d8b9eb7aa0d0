-- ===== src/Api.antt =====
-- The HTTP API (src/api). A request that is not authenticated does not reach the handlers.
pub mod Paging
pub mod Pools
pub mod Projects
pub mod Proxies
pub mod Rotation
pub mod Sources
pub mod Stats
mod Tests
use proxysm.Base.{Option, none, some}

-- A response with a body, a 404, or an exception, after which nothing is committed.
pub data Reply (A : Type 0) : Type 0 where
  ok : A → Reply A
  not_found : Reply A
  failed : Reply A

-- A field of a PATCH body: not in it, null, or a value (`model_dump(exclude_unset=True)`).
pub data Field (A : Type 0) : Type 0 where
  unset : Field A
  null : Field A
  value : A → Field A

-- `setattr` of a column that admits no null; none is the violation of that.
abbrev pub required : {A : Type 0} → Field A → A → Option A
required unset a = some a
required null a = none
required (value b) a = some b
