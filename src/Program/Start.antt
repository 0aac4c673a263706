-- ===== src/Program/Start.antt =====
-- cmd/aether/main.go: the start of the program, up to its host. `log.Fatalf` ends it; the exit of the process
-- frees what is still open.
pub mod Order
use go_p2p_messenger.Base.{
  Bytes, Bool, true, false, Option, none, some, Error, Result, ok, err, Exec, wrapping, pure, ◌>>=◌,
  ◌>>◌,
}
use go_p2p_messenger.Storage.Database.Opening.{Driver, Up, open_db, run_migrations}
use go_p2p_messenger.Identity.{Crypto, Identity, Disk, load, generate, has_key}
use go_p2p_messenger.Transport.Host.{Libp2p, new_libp2p_host}

-- What the start works on: the database driver, the key file, and go-libp2p's state. `directory` is how
-- `os.MkdirAll` ends.
pub record World (W : Type 0) : Type 0 where
  pub directory : Option Error
  pub driver : Driver
  pub disk : Disk
  pub network : W

abbrev made : Option Error → Result (Unit {0})
made none = ok tt
made (some e) = err e

module _ {W A : Type 0} where
  abbrev pub on_driver : Exec Driver A → Exec (World W) A
  on_driver m w = let (r, d) = m w.driver in (r, record w { driver = d })

  abbrev pub on_disk : Exec Disk A → Exec (World W) A
  on_disk m w = let (r, d) = m w.disk in (r, record w { disk = d })

  abbrev pub on_network : Exec W A → Exec (World W) A
  on_network m w = let (r, n) = m w.network in (r, record w { network = n })

-- `os.MkdirAll`
abbrev pub make_dir : {W : Type 0} → Exec (World W) (Unit {0})
make_dir w = (made w.directory, w)

-- The start of the storage.
unfoldable pub start_storage : {W : Type 0} → Up → Exec (World W) (Unit {0})
unfolding open_db run_migrations
start_storage up =
    wrapping "Failed to create data dir" make_dir
    >> (wrapping "Failed to open storage" (on_driver open_db)
        >> wrapping "Failed to run migrations" (on_driver (run_migrations up)))

module _ {W : Type 0} (c : Crypto) (lib : Libp2p W c.PrivKey) where
  -- After `idMgr.HasKey()`.
  unfoldable pub load_or_generate : Bytes → Bool → Exec (World W) (Identity c)
  unfolding load generate
  load_or_generate entropy true = wrapping "Failed to load identity" (on_disk (load c))
  load_or_generate entropy false =
      wrapping "Failed to generate identity" (on_disk (generate c entropy))

  unfoldable pub choose_identity : Bytes → Exec (World W) (Identity c)
  unfolding load_or_generate has_key
  choose_identity entropy w =
      let (known, d) = has_key c w.disk in load_or_generate entropy known (record w { disk = d })

  -- The identity and the host.
  unfoldable pub start_node : Bytes → Exec (World W) (Identity c × lib.Host)
  unfolding choose_identity new_libp2p_host
  start_node entropy = choose_identity entropy >>= λ ident.
      wrapping "Failed to create libp2p host" (on_network (new_libp2p_host c lib ident 0))
      >>= λ host. pure (ident, host)

  unfoldable pub start : Up → Bytes → Exec (World W) (Identity c × lib.Host)
  unfolding start_storage start_node
  start up entropy = start_storage up >> start_node entropy
