-- ===== src/Messages.antt =====
-- src/types.h: the inputs and outputs of the RPCs. An `hg_string_t` may be NULL.
pub mod Wire
use cachercise.Base.{ℕ, String, Option, List}
use cachercise.Base.Int.{ℤ}
use cachercise.Common.{ReturnCode, CacheId}

pub record CreateCacheIn : Type 0 where
  pub type : Option String
  pub config : Option String
  pub token : Option String

pub record CreateCacheOut : Type 0 where
  pub ret : ReturnCode
  pub id : CacheId

-- close_cache_in_t and destroy_cache_in_t
pub record CloseCacheIn : Type 0 where
  pub token : Option String
  pub id : CacheId

-- close_cache_out_t and destroy_cache_out_t
pub record CloseCacheOut : Type 0 where
  pub ret : ReturnCode

pub record ListCachesIn : Type 0 where
  pub token : Option String
  pub max_ids : ℕ

-- `ids` is NULL or an array.
pub record ListCachesOut : Type 0 where
  pub ret : ReturnCode
  pub count : ℕ
  pub ids : Option (List CacheId)

pub record HelloIn : Type 0 where
  pub cache_id : CacheId

pub record SumIn : Type 0 where
  pub cache_id : CacheId
  pub x : ℤ
  pub y : ℤ

pub record SumOut : Type 0 where
  pub result : ℤ
  pub ret : ReturnCode

pub record IoIn : Type 0 where
  pub cache_id : CacheId
  pub count : ℕ
  pub offset : ℕ
  pub scratch : ℕ
  pub kind : ℕ

pub record IoOut : Type 0 where
  pub bytes : ℕ
  pub scratch : ℕ
  pub result : ℕ
  pub ret : ReturnCode
