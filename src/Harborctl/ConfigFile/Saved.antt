-- ===== src/Harborctl/ConfigFile/Saved.antt =====
-- config set of cmd/harborctl/cmd/config.go, and initConfig of a later run that reads the file.
use harbor_hook.Common.{
  String, Bool, true, false, Option, none, some, Result, ok, err, ◌≡◌, refl, sym, subst, ap, ◌∙◌,
  Bool-cases, inl, inr,
}
use harbor_hook.Common.Exec.{pure, raise, branch, ◌>>=◌}
use harbor_hook.Harborctl.Settings.{Options, Changed, Viper, init_config}
use harbor_hook.Harborctl.ConfigFile.{
  Value, flag, Stored, Machine, put, is_valid_key, is_true_word, is_false_word, value_for,
  config_path, store_value, config_set,
}

module _ (m : Machine) where
  -- A set that succeeds has a valid key and a value for it, which is the setting from then on and in the file;
  -- the other settings are kept.
  pub record IsStored (key w : String) (s v : Stored) : Type 0 where
    pub value : Value
    pub valid : is_valid_key key ≡ true
    pub read : value_for m key w ≡ ok value
    pub kept : v.settings ≡ put key value s.settings
    pub saved : v.file ≡ some v.settings

  saved_at :
      (key : String) (value : Value) (path home : String) (o : Option String) (s v : Stored)
      → m.home ≡ ok home
      → m.write_error (config_path home) ≡ o
      → store_value m key (ok value) s ≡ (ok path, v)
      → (v.settings ≡ put key value s.settings) × (v.file ≡ some v.settings)
  unfolding store_value pure ◌>>=◌
  saved_at key value path home (some x) s v at bad e = absurd (cc (rw (at, bad) at e))
  saved_at key value path home none s v at fine e =
      let left = rw (at, fine) at e in
      (
        sym (ap (λ p. p.1.settings) left),
        sym (ap (λ p. p.1.file) left) ∙ ap (λ p. some p.1.settings) left,
      )

  homeless :
      (key : String) (value : Value) (path x : String) (s v : Stored)
      → m.home ≡ err x
      → store_value m key (ok value) s ≡ (ok path, v)
      → ⊥
  unfolding store_value ◌>>=◌
  homeless key value path x s v at e = absurd (cc (rw at at e))

  saved_from :
      (key : String) (value : Value) (path : String) (home : Result String) (s v : Stored)
      → m.home ≡ home
      → store_value m key (ok value) s ≡ (ok path, v)
      → (v.settings ≡ put key value s.settings) × (v.file ≡ some v.settings)
  saved_from key value path (ok home) s v at e =
      saved_at key value path home (m.write_error (config_path home)) s v at refl e
  saved_from key value path (err x) s v at e = absurd (homeless key value path x s v at e)

  store_value-IsStored :
      (key w path : String) (o : Result Value) (s v : Stored)
      → is_valid_key key ≡ true
      → value_for m key w ≡ o
      → store_value m key o s ≡ (ok path, v)
      → IsStored key w s v
  unfolding store_value raise
  store_value-IsStored key w path (err x) s v valid read e = absurd (cc e)
  store_value-IsStored key w path (ok value) s v valid read e =
      let (kept, saved) = saved_from key value path m.home s v refl e in
      record { value = value; valid = valid; read = read; kept = kept; saved = saved }

  config_set-IsStored :
      (key w path : String) (s v : Stored)
      → config_set m key w s ≡ (ok path, v)
      → IsStored key w s v
  unfolding config_set raise branch
  config_set-IsStored key w path s v e = elim (Bool-cases (is_valid_key key)) [
    | inl h ↦ store_value-IsStored key w path (value_for m key w) s v h refl (rw h at e)
    | inr h ↦ absurd (cc (rw h at e))
  ]

-- a Boolean setting, false where there is none
abbrev pub as_flag : Value → Bool
as_flag (flag b) = b
as_flag _ = false

-- no flag on the command line
abbrev pub no_flags : Changed
no_flags = record {
  server = false;
  timeout = false;
  http = false;
  json = false;
  pretty = false;
  token = false;
}

-- viper finds in the file what was stored.
abbrev pub Reads : Viper → Option (String → Value) → Type 0
Reads viper none = ⊥
Reads viper (some f) = (key : String) → viper.get_bool key ≡ as_flag (f key)

flag_of_word :
    (m : Machine) (w : String) (value : Value)
    → value_for m "http" w ≡ ok value
    → value ≡ flag (is_true_word w)
unfolding value_for
flag_of_word m w value e = elim (Bool-cases (is_true_word w)) [
  | inl h ↦ rw h (cc (rw h at e))
  | inr h ↦ elim (Bool-cases (is_false_word w)) [
    | inl k ↦ rw h (cc (rw (h, k) at e))
    | inr k ↦ absurd (cc (rw (h, k) at e))
  ]
]

-- A config set of the key http that succeeds, where a later run without flags reads from the file
-- what was written: that run uses HTTP if and only if the value was true, 1, yes or on, and its
-- flags for JSON and for pretty output are what the settings had.
pub init_config-config_set :
    (m : Machine) (w path : String) (s v : Stored) (viper : Viper) (env : String → String)
    (g : Options)
    → config_set m "http" w s ≡ (ok path, v)
    → Reads viper v.file
    → ((init_config viper env no_flags g).use_http ≡ is_true_word w)
      × ((init_config viper env no_flags g).output_json ≡ as_flag (s.settings "json"))
      × ((init_config viper env no_flags g).pretty_json ≡ as_flag (s.settings "pretty"))
unfolding init_config
init_config-config_set m w path s v viper env g e reads =
    let h = config_set-IsStored m "http" w path s v e in
    let file : Reads viper (some (put "http" h.value s.settings)) =
      subst (Reads viper) (h.saved ∙ ap some h.kept) reads in
    (file "http" ∙ ap as_flag (flag_of_word m w h.value h.read), file "json", file "pretty")
