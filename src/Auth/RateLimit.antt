-- ===== src/Auth/RateLimit.antt =====
-- auth/rate_limit.py: the keys of the limits on what a request's body names, and their storage. The
-- counters are those of the limits library.
use sleuthgraph_api.Base.{Bool, ◌&&◌, ◌||◌, not, ◌++◌, if◌then◌else◌}
use sleuthgraph_api.Base.Text.{Text, codes, starts_with}
use sleuthgraph_api.Auth.Provision.{is_empty}

-- The settings that are read here.
pub record LimitSettings : Type 0 where
  pub auth_rate_limit_storage : Text
  pub redis_url : Text
  pub auth_forgot_password_email_rate : Text
  pub auth_login_username_rate : Text
  pub auth_verify_email_rate : Text
  pub auth_reset_password_token_rate : Text

abbrev is_redis : Text → Bool
is_redis uri = starts_with uri (codes "redis://") || starts_with uri (codes "rediss://")

-- `_build_storage_uri`; a setting that is absent is the empty text
unfoldable pub build_storage_uri : LimitSettings → Text
build_storage_uri s =
    if not (is_empty s.auth_rate_limit_storage)
    then s.auth_rate_limit_storage
    else if not (is_empty s.redis_url) && is_redis s.redis_url
    then s.redis_url
    else codes "memory://"

pub data Storage : Type 0 where
  redis_storage : Text → Storage
  memory_storage : Storage

-- `_build_storage`
unfoldable pub build_storage : LimitSettings → Storage
unfolding build_storage_uri
build_storage s =
    if is_redis (build_storage_uri s) then redis_storage (build_storage_uri s) else memory_storage

-- `hit rate key` is `_body_strategy.hit`: whether the attempt is within the rate.
module _ (s : LimitSettings) (hit : Text → Text → Bool) (lower sha256_hex : Text → Text) where
  unfoldable pub email_rate_limit_hit : Text → Bool
  email_rate_limit_hit email =
      hit s.auth_forgot_password_email_rate (codes "forgot:" ++ lower email)

  unfoldable pub username_rate_limit_hit : Text → Bool
  username_rate_limit_hit username =
      hit s.auth_login_username_rate (codes "login:" ++ lower username)

  unfoldable pub verify_email_rate_limit_hit : Text → Bool
  verify_email_rate_limit_hit email = hit s.auth_verify_email_rate (codes "verify:" ++ lower email)

  unfoldable pub reset_token_rate_limit_hit : Text → Bool
  reset_token_rate_limit_hit token =
      hit s.auth_reset_password_token_rate (codes "reset:" ++ sha256_hex token)
