-- ===== src/Config/Bootstrap/Durations.antt =====
-- internal/config/config.go: the durations and the address of settings that were loaded.
use mathlib.Core.Path.{subst}
use ghost_vault.Prelude.{
  ℕ, zero, suc, ◌-◌, ◌*◌, ◌^◌, ◌≤◌, ◌<◌, ◌≡◌, refl, Bool, false, Option, none, some, arith,
  Bool-cases, inl, inr,
}
use ghost_vault.Prelude.Int.{ℤ, pos, negsuc, wrap64}
use ghost_vault.Text.{Text, Casing, codes, is_empty, trim_space, normalise}
use ghost_vault.Config.Bootstrap.{
  Bootstrap, encryption_of, positive_or, minutes, hours, has_colon, get_env, normalize_listen_addr,
  idle_minutes, max_hours, loaded, load,
}

wrap64-small : (n : ℕ) → n < 2 ^ 63 → wrap64 n ≡ pos n
wrap64-small n h = ground (arith, h)

wrap64-large : (n : ℕ) → 2 ^ 63 ≤ n → n < 2 ^ 64 → wrap64 n ≡ negsuc (2 ^ 64 - 1 - n)
wrap64-large n h h' = ground (arith, h, h')

positive_or-pos : (n : ℕ) (z : ℤ) → 0 < n → 0 < positive_or n z
positive_or-pos n (pos zero) h = h
positive_or-pos n (pos (suc k)) h = omega arith
positive_or-pos n (negsuc k) h = h

minutes-small : (n : ℕ) → n ≤ 153722867 → minutes n ≡ pos (n * 60000000000)
minutes-small n h = wrap64-small (n * 60000000000) (omega (arith, h))

hours-small : (n : ℕ) → n ≤ 2562047 → hours n ≡ pos (n * 3600000000000)
hours-small n h = wrap64-small (n * 3600000000000) (omega (arith, h))

minutes_wrap : (n : ℕ) → 153722867 < n → n ≤ 307445734 → (k : ℕ) × (minutes n ≡ negsuc k)
minutes_wrap n h h' = (
  2 ^ 64 - 1 - n * 60000000000,
  wrap64-large (n * 60000000000) (omega (arith, h)) (omega (arith, h')),
)

some-inj : {A : Type 0} {a b : A} → some a ≡ some b → a ≡ b
some-inj h = cc h

module _ (atoi : Text → ℤ) (is_int : Text → Bool) (getenv : Text → Text) where
  addr-named : (addr : Text) → is_empty (normalize_listen_addr atoi is_int getenv addr) ≡ false
  unfolding normalize_listen_addr
  addr-named addr = elim (Bool-cases (is_empty (trim_space addr))) [
    | inl e ↦ rw e refl
    | inr e ↦ elim (Bool-cases (has_colon (trim_space addr))) [
      | inl e₁ ↦ rw (e, e₁) e
      | inr e₁ ↦ elim (Bool-cases (is_int (trim_space addr))) [
        | inl e₂ ↦ rw (e, e₁, e₂) refl
        | inr e₂ ↦ rw (e, e₁, e₂) e
      ]
    ]
  ]

  module _ ⦃u : Casing⦄ where
    -- What a server may rely on in settings that were loaded.
    pub record IsLoaded (c : Bootstrap) : Type 0 where
      pub encryption :
          encryption_of
            (normalise (get_env atoi is_int getenv (codes "GV_ENCRYPTION") (codes "on")))
          ≡ some c.encryption_on
      pub address : is_empty c.http_addr ≡ false
      pub idle_set : 0 < idle_minutes atoi is_int getenv
      pub idle :
          idle_minutes atoi is_int getenv ≤ 153722867
          → c.session_idle ≡ pos (idle_minutes atoi is_int getenv * 60000000000)
      pub idle_wraps :
          153722867 < idle_minutes atoi is_int getenv
          → idle_minutes atoi is_int getenv ≤ 307445734
          → (k : ℕ) × (c.session_idle ≡ negsuc k)
      pub max_set : 0 < max_hours atoi is_int getenv
      pub max :
          max_hours atoi is_int getenv ≤ 2562047
          → c.session_max ≡ pos (max_hours atoi is_int getenv * 3600000000000)

    loaded-IsLoaded :
        (on : Option Bool) {c : Bootstrap}
        → encryption_of
            (normalise (get_env atoi is_int getenv (codes "GV_ENCRYPTION") (codes "on")))
          ≡ on
        → loaded atoi is_int getenv on ≡ some c
        → IsLoaded c
    loaded-IsLoaded none e h = absurd (cc h)
    loaded-IsLoaded (some on) e h = subst IsLoaded (some-inj h) (record {
      encryption = e;
      address = addr-named _;
      idle_set = positive_or-pos 60 _ (omega arith);
      idle = minutes-small _;
      idle_wraps = minutes_wrap _;
      max_set = positive_or-pos 12 _ (omega arith);
      max = hours-small _;
    })

    -- Settings that were loaded have a known encryption mode and an address, whatever the environment
    -- holds. Their durations are the positive numbers of minutes and hours that are given, or the
    -- defaults, up to 153,722,867 minutes of idle time and 2,562,047 hours; beyond that the product
    -- wraps, and an idle time of up to twice as much is negative.
    pub load-IsLoaded : {c : Bootstrap} → load atoi is_int getenv ≡ some c → IsLoaded c
    unfolding load
    load-IsLoaded h = loaded-IsLoaded _ refl h
