-- ===== src/Database.antt =====
-- internal/db/db.go: Connect, on the pools that are open. Parsing a DSN, opening a pool and its ping are
-- parameters.
use harbor_hook.Common.{ℕ, String, List, [], ◌∷◌, Result, ok, err, ◌≡◌, refl}
use harbor_hook.Common.Exec.{Exec, raise, ◌>>=◌}

pub record Pool (C : Type 0) : Type 0 where
  pub config : C
  pub max_conns : ℕ

-- pgxpool: the open pools of a process, newest first
abbrev pub Pools : Type 0 → Type 0
Pools C = List (Pool C)

-- ParseConfig, the error of NewWithConfig if there is one, and Ping
pub record Driver (C : Type 0) : Type 0 where
  pub parse_config : String → Result C
  pub new_error : C → ℕ → Result (Unit {0})
  pub ping : Pool C → Result (Unit {0})

module _ {C : Type 0} (d : Driver C) where
  abbrev opened : Pool C → Result (Unit {0}) → Exec (Pools C) (Pool C)
  opened p (ok u) pools = (ok p, p ∷ pools)
  opened p (err e) pools = (err e, pools)

  -- pgxpool.NewWithConfig
  abbrev pub open_pool : C → ℕ → Exec (Pools C) (Pool C)
  open_pool c n = opened (record { config = c; max_conns = n }) (d.new_error c n)

  -- pool.Close of the newest pool
  abbrev pub close_pool : Pools C → Pools C
  close_pool [] = []
  close_pool (p ∷ pools) = pools

  abbrev pub checked : Pool C → Result (Unit {0}) → Exec (Pools C) (Pool C)
  checked p (ok u) pools = (ok p, pools)
  checked p (err e) pools = (err e, close_pool pools)

  abbrev parsed : Result C → Exec (Pools C) (Pool C)
  parsed (err e) = raise e
  parsed (ok c) = do p ← open_pool c 10; checked p (d.ping p)

  -- Connect
  unfoldable pub connect : String → Exec (Pools C) (Pool C)
  connect dsn = parsed (d.parse_config dsn)

module _ {C : Type 0} (d : Driver C) where
  -- A pool that Connect returns is open and was pinged; a failed Connect leaves no pool open.
  abbrev pub Outcome : String → Pools C → Result (Pool C) × Pools C → Type 0
  Outcome dsn before (ok p, pools) =
      (d.parse_config dsn ≡ ok p.config)
      × (p.max_conns ≡ 10)
      × (d.ping p ≡ ok tt)
      × (pools ≡ p ∷ before)
  Outcome dsn before (err e, pools) = pools ≡ before

  checked-Outcome :
      (dsn : String) (c : C) (before : Pools C) (o : Result (Unit {0}))
      → d.parse_config dsn ≡ ok c
      → d.ping (record { config = c; max_conns = 10 }) ≡ o
      → Outcome dsn before (
          checked d
            (record { config = c; max_conns = 10 })
            o
            (record { config = c; max_conns = 10 } ∷ before))
  checked-Outcome dsn c before (ok u) read ping = (read, refl, ping, refl)
  checked-Outcome dsn c before (err e) read ping = refl

  opened-Outcome :
      (dsn : String) (c : C) (before : Pools C) (o : Result (Unit {0}))
      → d.parse_config dsn ≡ ok c
      → d.new_error c 10 ≡ o
      → Outcome dsn before (parsed d (ok c) before)
  unfolding ◌>>=◌
  opened-Outcome dsn c before (ok u) read made =
      rw made
        (checked-Outcome dsn c before (d.ping (record { config = c; max_conns = 10 })) read refl)
  opened-Outcome dsn c before (err e) read made = rw made refl

  parsed-Outcome :
      (dsn : String) (before : Pools C) (o : Result C)
      → d.parse_config dsn ≡ o
      → Outcome dsn before (parsed d o before)
  unfolding raise
  parsed-Outcome dsn before (ok c) e = opened-Outcome dsn c before (d.new_error c 10) e refl
  parsed-Outcome dsn before (err x) e = refl

  -- A pool that Connect returns has the configuration of the DSN and at most 10 connections, was
  -- pinged, and is the one pool more that is open; where Connect fails, at any of its steps, the
  -- open pools are those from before.
  pub connect-Outcome :
      (dsn : String) (before : Pools C) → Outcome dsn before (connect d dsn before)
  unfolding connect
  connect-Outcome dsn before = parsed-Outcome dsn before (d.parse_config dsn) refl
