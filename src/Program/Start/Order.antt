-- ===== src/Program/Start/Order.antt =====
-- cmd/aether/main.go: the identity and the host come after the storage.
use go_p2p_messenger.Base.{
  suc, ◌≡◌, refl, sym, ◌∙◌, subst, inl, inr, ◌⊎◌, Bytes, Bool, true, false, Error, wrap, Result, ok,
  err, map_error, and_then, Exec, wrapping, pure, ◌>>=◌, ◌>>◌,
}
use go_p2p_messenger.Storage.Database.Opening.{
  Driver, Up, done, no_change, failed, pragmas, driver_call, after_up, open_db, run_migrations,
}
use go_p2p_messenger.Storage.Database.Opening.Handles.{
  IsOpened, open_db-IsOpened, driver_call-keeps,
}
use go_p2p_messenger.Identity.{Crypto, Identity, has_key}
use go_p2p_messenger.Transport.Host.{Libp2p, new_libp2p_host}
use go_p2p_messenger.Program.Start.{
  World, on_driver, on_network, make_dir, start_storage, load_or_generate, choose_identity,
  start_node, start,
}

-- Migrations change neither the handles nor the settings, and when they succeed the schema is complete.
abbrev Migrates : Driver → Result (Unit {0}) × Driver → Type 0
Migrates d (ok u, d') = (d'.handles ≡ d.handles) × (d'.applied ≡ d.applied) × (d'.migrated ≡ true)
Migrates d (err e, d') = Unit {0}

after_up-Migrates : (up : Up) (d : Driver) → Migrates d (after_up up d)
unfolding after_up
after_up-Migrates done d = (refl, refl, refl)
after_up-Migrates no_change d = (refl, refl, refl)
after_up-Migrates (failed e) d = tt

Migrates-after :
    (d d' : Driver) (r : Result (Unit {0}) × Driver)
    → (d'.handles ≡ d.handles) × (d'.applied ≡ d.applied)
    → Migrates d' r
    → Migrates d r
Migrates-after d d' (ok u, x) k m = (m.0 ∙ k.0, m.1 ∙ k.1, m.2)
Migrates-after d d' (err e, x) k m = tt

called-Migrates :
    (f : Error → Error) (next : Exec Driver (Unit {0})) (d d' : Driver) (r : Result (Unit {0}))
    → (d'.handles ≡ d.handles) × (d'.applied ≡ d.applied)
    → ((x : Driver) → Migrates x (next x))
    → Migrates d (and_then (λ u. next) (map_error f r) d')
called-Migrates f next d d' (ok u) k h = Migrates-after d d' (next d') k (h d')
called-Migrates f next d d' (err e) k h = tt

run_migrations-Migrates : (up : Up) (d : Driver) → Migrates d (run_migrations up d)
unfolding run_migrations
run_migrations-Migrates up d =
    let instance_made = wrapping "create migrate instance" driver_call >> after_up up in
    let driver_made = wrapping "create sqlite driver" driver_call >> instance_made in
    called-Migrates (wrap "create iofs source") driver_made d (driver_call d).1 (driver_call d).0
      (driver_call-keeps d)
      (λ x.
        called-Migrates (wrap "create sqlite driver") instance_made x (driver_call x).1
          (driver_call x).0 (driver_call-keeps x)
          (λ y.
            called-Migrates (wrap "create migrate instance") (after_up up) y (driver_call y).1
              (driver_call y).0 (driver_call-keeps y) (after_up-Migrates up)))

module _ {W : Type 0} where
  abbrev pub Untouched : World W → World W → Type 0
  Untouched w w' = (w'.disk ≡ w.disk) × (w'.network ≡ w.network)

  abbrev pub HasStorage : World W → World W → Type 0
  HasStorage w w' =
      (w'.driver.handles ≡ suc w.driver.handles)
      × (w'.driver.applied ≡ pragmas)
      × (w'.driver.migrated ≡ true)

  -- The outcome of the start of the storage.
  abbrev IsStored : World W → Result (Unit {0}) × World W → Type 0
  IsStored w (ok u, w') = HasStorage w w' × Untouched w w'
  IsStored w (err e, w') = Untouched w w'

  migrated-IsStored :
      (w : World W) (d : Driver) (r : Result (Unit {0})) (d' : Driver)
      → (d.handles ≡ suc w.driver.handles) × (d.applied ≡ pragmas)
      → Migrates d (r, d')
      → IsStored w (map_error (wrap "Failed to run migrations") r, record w { driver = d' })
  migrated-IsStored w d (ok u) d' o m = ((m.0 ∙ o.0, m.1 ∙ o.1, m.2), (refl, refl))
  migrated-IsStored w d (err e) d' o m = (refl, refl)

  opened-IsStored :
      (up : Up) (w : World W) (r : Result (Unit {0})) (d : Driver)
      → IsOpened w.driver (r, d)
      → IsStored w (
          and_then
            (λ u. wrapping "Failed to run migrations" (on_driver (run_migrations up)))
            (map_error (wrap "Failed to open storage") r)
            (record w { driver = d }))
  opened-IsStored up w (err e) d o = (refl, refl)
  opened-IsStored up w (ok u) d o =
      let (r, d') = run_migrations up d in
      migrated-IsStored w d r d' (o.0, o.1) (run_migrations-Migrates up d)

  made-IsStored :
      (up : Up) (w : World W) (r : Result (Unit {0}))
      → IsStored w (
          and_then
            (λ u.
              wrapping "Failed to open storage" (on_driver open_db)
              >> wrapping "Failed to run migrations" (on_driver (run_migrations up)))
            (map_error (wrap "Failed to create data dir") r)
            w)
  made-IsStored up w (err e) = (refl, refl)
  made-IsStored up w (ok u) =
      let (r, d) = open_db w.driver in opened-IsStored up w r d (open_db-IsOpened w.driver)

  start_storage-IsStored : (up : Up) (w : World W) → IsStored w (start_storage up w)
  unfolding start_storage
  start_storage-IsStored up w = made-IsStored up w (make_dir w).0

module _ {W A B : Type 0} (m : Exec (World W) A) (f : A → Exec (World W) B) where
  then-driver :
      (r : Result A) (w : World W)
      → ((a : A) (x : World W) → (f a x).1.driver ≡ x.driver)
      → (and_then f r w).1.driver ≡ w.driver
  then-driver (ok a) w h = h a w
  then-driver (err e) w h = refl

  bind-driver :
      ((x : World W) → (m x).1.driver ≡ x.driver)
      → ((a : A) (x : World W) → (f a x).1.driver ≡ x.driver)
      → (w : World W) → ((m >>= f) w).1.driver ≡ w.driver
  bind-driver k h w = let (r, w') = m w in then-driver r w' h ∙ k w

has_storage :
    {W : Type 0} (w mid w' : World W) → HasStorage w mid → w'.driver ≡ mid.driver → HasStorage w w'
has_storage w mid w' h e =
    subst
      (λ (d : Driver).
        (d.handles ≡ suc w.driver.handles) × (d.applied ≡ pragmas) × (d.migrated ≡ true))
      (sym e) h

module _ {W : Type 0} (c : Crypto) (lib : Libp2p W c.PrivKey) where
  load_or_generate-driver :
      (entropy : Bytes) (known : Bool) (w : World W)
      → (load_or_generate c lib entropy known w).1.driver ≡ w.driver
  unfolding load_or_generate
  load_or_generate-driver entropy true w = refl
  load_or_generate-driver entropy false w = refl

  choose_identity-driver :
      (entropy : Bytes) (w : World W) → (choose_identity c lib entropy w).1.driver ≡ w.driver
  unfolding choose_identity
  choose_identity-driver entropy w =
      let (known, d) = has_key c w.disk in
      load_or_generate-driver entropy known (record w { disk = d })

  abbrev hosted : Identity c → Exec (World W) (Identity c × lib.Host)
  hosted ident =
      wrapping "Failed to create libp2p host" (on_network (new_libp2p_host c lib ident 0))
      >>= λ host. pure (ident, host)

  start_node-driver :
      (entropy : Bytes) (w : World W) → (start_node c lib entropy w).1.driver ≡ w.driver
  unfolding start_node
  start_node-driver entropy =
      bind-driver (choose_identity c lib entropy) hosted (choose_identity-driver entropy) (λ ident.
        bind-driver
          (wrapping "Failed to create libp2p host" (on_network (new_libp2p_host c lib ident 0)))
          (λ host. pure (ident, host)) (λ w. refl) (λ host w. refl))

  -- The outcome of the start: with its storage, or an error, at which the key file and the network are
  -- untouched unless there is the storage.
  abbrev pub IsStarted : World W → Result (Identity c × lib.Host) × World W → Type 0
  IsStarted w (ok x, w') = HasStorage w w'
  IsStarted w (err e, w') = Untouched w w' ⊎ HasStorage w w'

  node-IsStarted :
      (w mid : World W) (r : Result (Identity c × lib.Host)) (w' : World W)
      → HasStorage w mid
      → w'.driver ≡ mid.driver
      → IsStarted w (r, w')
  node-IsStarted w mid (ok x) w' h e = has_storage w mid w' h e
  node-IsStarted w mid (err x) w' h e = inr (has_storage w mid w' h e)

  stored-IsStarted :
      (entropy : Bytes) (w : World W) (r : Result (Unit {0})) (mid : World W)
      → IsStored w (r, mid)
      → IsStarted w (and_then (λ u. start_node c lib entropy) r mid)
  stored-IsStarted entropy w (err e) mid s = inl s
  stored-IsStarted entropy w (ok u) mid s =
      let (r, w') = start_node c lib entropy mid in
      node-IsStarted w mid r w' s.0 (start_node-driver entropy mid)

  -- Whatever fails: when the program has started, one more database handle is open, with all settings and a
  -- complete schema; when it has not, it has touched neither the key file nor the network, or it has done
  -- that with the storage as said.
  pub start-IsStarted :
      (up : Up) (entropy : Bytes) (w : World W) → IsStarted w (start c lib up entropy w)
  unfolding start
  start-IsStarted up entropy w =
      let (r, mid) = start_storage up w in
      stored-IsStarted entropy w r mid (start_storage-IsStored up w)
