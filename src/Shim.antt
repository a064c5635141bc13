-- ===== src/Shim.antt =====
-- internal/shim: copying a shim binary to the host and removing it, with the lock file kept in step.
pub mod Removal
pub mod Recording
pub mod Installation
pub mod Uninstallation
pub mod Runs
mod Tests
mod StoreTests
use runtime_class_manager.Base.{Bool, true, false, Option, none, some, [], ◌∷◌, ◌++◌, Text, txt}
use runtime_class_manager.Go.Strings.{trim_prefix}
use runtime_class_manager.Go.Paths.{path_join, dir}
use runtime_class_manager.Go.Outcome.{
  failure, is_not_exist, Err, ok, panic, Action, pure, raise, return_err, attempt, lift, when,
  ◌>>=◌, ◌>>◌,
}
use runtime_class_manager.Machine.{Machine}
use runtime_class_manager.State.{
  State, get, write, find_shim, shim_changed, update_shim, remove_shim,
}
use runtime_class_manager.State.Entry.{Shim}

-- `Config`; its file systems are those of the machine.
pub record Config : Type 0 where
  pub asset_path : Text
  pub rcm_path : Text

-- `RuntimeName`
unfoldable pub runtime_name : Text → Text
runtime_name bin = trim_prefix bin (txt "containerd-shim-")

-- Where `Install` puts the binary.
unfoldable pub dst_path : Config → Text → Text
dst_path c shim_name = path_join (c.rcm_path ∷ txt "bin" ∷ shim_name ∷ [])

unfoldable pub first_error : Err → Err → Err
first_error none e = e
first_error (some e) _ = some e

module _ {W : Type 0} (m : Machine W) where
  -- `io.Copy(io.MultiWriter(dstFile, shimSha256), srcFile)`: the bytes that reached the digest.
  unfoldable pub copy_hashed : Text → Text → Action W (Text × Err)
  unfolding first_error
  copy_hashed src dst w =
      let ((bytes, read_error), w') = m.root_fs.read_all src w in
      let ((hashed, write_error), w'') = m.host_fs.write_all dst bytes w' in
      (ok (hashed, first_error write_error read_error), w'')

  -- Records a changed shim in the lock file.
  unfoldable pub record_shim : State → Text → Text → Text → Bool → Action W (Unit {0})
  record_shim st name digest dst changed = when changed (do
    st' ← lift (update_shim st name (record { sha256 = digest; path = dst }))
    write m.host_fs st')

  -- `Config.Install`
  unfoldable pub install : Config → Text → Action W (Text × Bool)
  unfolding copy_hashed record_shim
  install c shim_name = do
    let src = path_join (c.asset_path ∷ shim_name ∷ [])
    m.root_fs.open_read src
    let dst = dst_path c shim_name
    m.host_fs.mkdir_all (dir dst)
    m.host_fs.open_trunc dst
    st ← get m.host_fs c.rcm_path
    (hashed, copy_error) ← copy_hashed src dst
    let name = runtime_name shim_name
    let digest = m.sha256 hashed
    changed ← lift (shim_changed st name digest dst)
    record_shim st name digest dst changed
    return_err copy_error
    pure (dst, changed)

  -- `s, ok := st.Shims[shimName]`, then `s.Path`
  unfoldable pub installed_path : Text → Option (Option Shim) → Action W Text
  installed_path shim_name none =
      raise (failure (txt "shim " ++ (shim_name ++ txt " not installed")))
  installed_path shim_name (some none) = lift (panic (txt "nil pointer dereference"))
  installed_path shim_name (some (some s)) = pure s.path

  -- A binary that is gone already is no error.
  unfoldable pub tolerate_missing : Text → Err → Action W (Unit {0})
  tolerate_missing file_path none = pure tt
  tolerate_missing file_path (some e) = elim (is_not_exist e) [
    | true ↦ pure tt
    | false ↦
        raise (
          failure
            (txt "shim binary at " ++ (file_path ++ txt " does not exist, nothing to delete")))
  ]

  -- `Config.Uninstall`
  unfoldable pub uninstall : Config → Text → Action W Text
  unfolding installed_path tolerate_missing
  uninstall c shim_name = do
    st ← get m.host_fs c.rcm_path
    file_path ← installed_path shim_name (find_shim st shim_name)
    removal ← attempt (m.host_fs.remove file_path)
    tolerate_missing file_path removal
    write m.host_fs (remove_shim st shim_name)
    pure file_path
