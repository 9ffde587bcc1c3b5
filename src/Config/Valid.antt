-- ===== src/Config/Valid.antt =====
-- What a configuration that is read without an error looks like.
use squiddish.Prelude.{◌<◌, ◌≡◌, refl, Option, arith}
use squiddish.Text.{Bytes, codes}
use squiddish.Cache.Files.{Attempt, done, failed}
use squiddish.Config.{
  Platform, Config, ◌>>=◌, set, read_addr, default, checked, read_cache, read_apt, read_security,
  from_vars,
}

>>=-eq-done :
    {T U : Type 0} {y : U} (first : Attempt Bytes T) (next : T → Attempt Bytes U)
    → (first >>= next) ≡ done y
    → (x : T) × (first ≡ done x) × (next x ≡ done y)
>>=-eq-done (failed fault) next returned = cc
>>=-eq-done (done x) next returned = (x, refl, returned)

done_injective : {T : Type 0} {x y : T} → Path (Attempt Bytes T) (done x) (done y) → x ≡ y
done_injective h = cc

module _ (platform : Platform) where
  -- no limit of the cache and of the connections is zero
  pub record IsPositive (config : Config platform) : Type 0 where
    pub memory_size : 0 < config.cache.memory_size
    pub disk_size : 0 < config.cache.disk_size
    pub max_body_size : 0 < config.security.max_body_size
    pub max_connections : 0 < config.security.max_connections
    pub timeout_seconds : 0 < config.security.timeout_seconds

  checked-IsPositive :
      (config config' : Config platform)
      → checked platform config ≡ done config'
      → (config ≡ config') × IsPositive config'
  unfolding checked
  checked-IsPositive config config' h = ground arith

  -- Every configuration that is read from variables without an error has limits that are not
  -- zero: the sizes of the two caches and of a body, the number of connections, and the timeout.
  pub from_vars-IsPositive :
      (get_var : Bytes → Option Bytes) (config : Config platform)
      → from_vars platform get_var ≡ done config
      → IsPositive config
  unfolding from_vars
  from_vars-IsPositive get_var config h =
      let (b, hb, h₁) =
        >>=-eq-done
          (set (default platform).bind_addr (read_addr platform)
            (get_var (codes "SQUIDDISH_BIND_ADDR")))
          _ h in
      let (c, hc, h₂) = >>=-eq-done (read_cache platform get_var) _ h₁ in
      let (a, ha, h₃) = >>=-eq-done (read_apt platform get_var) _ h₂ in
      let (s, hs, h₄) = >>=-eq-done (read_security platform get_var) _ h₃ in
      (checked-IsPositive (record { bind_addr = b; cache = c; apt = a; security = s }) config h₄).1
