-- ===== src/AtomicOutput.antt =====
-- src/atomic_output.hpp: a file that appears under its name complete or not at all. The object's
-- members and the file system are one state, and each method is a call on it.
pub mod Posix
pub mod Write
pub mod Commit
pub mod Meters
pub mod Construct
pub mod Line
pub mod Destroy
pub mod Session
pub mod Memory
mod Tests
use mathlib.Core.List.{reverse}
use bengal_market.Base.{
  Bool, Bytes, Option, [], codes, drop, false, if◌then◌else◌, is_empty, none, not, some, suc, true,
  zero, ℕ, ◌&&◌, ◌++◌, ◌==◌, ◌||◌, ◌∷◌,
}
use bengal_market.Decimal.Numeral.{bare}
use bengal_market.Effects.{
  Action, Done, cut_off, failure, pure, raise, raised, returned, unless, ◌>>=◌, ◌>>◌,
}

-- What `::write` answers: how many bytes it took, or an error, `EINTR` or another one.
pub data WriteAnswer : Type 0 where
  wrote : ℕ → WriteAnswer
  interrupted refused : WriteAnswer

-- The calls of the operating system, over an unknown state of the files. `none` and `false` are
-- errors; `exists` may throw.
pub record FileSystem : Type 1 where
  pub World : Type 0
  pub Fd : Type 0
  pub exists : Bytes → World → Option Bool
  -- `::open` with `O_WRONLY | O_CREAT | O_EXCL | O_CLOEXEC`.
  pub create : Bytes → World → Option Fd × World
  pub write : Fd → Bytes → World → WriteAnswer × World
  pub fsync : Fd → World → Bool × World
  pub close : Fd → World → Bool × World
  pub link : Bytes → Bytes → World → Bool × World
  pub unlink : Bytes → World → Bool × World
  -- `::open` with `O_RDONLY | O_DIRECTORY | O_CLOEXEC`.
  pub open_directory : Bytes → World → Option Fd × World

unfoldable pub has_slash : Bytes → Bool
has_slash [] = false
has_slash (c ∷ p) = (c == b'/') || has_slash p

-- `std::filesystem::path::filename`: what stands behind the last slash.
unfoldable pub filename : Bytes → Bytes
unfolding has_slash
filename [] = []
filename (c ∷ p) =
    let rest = filename p in if has_slash p then rest else if c == b'/' then p else c ∷ p

-- `parent_path`, on the reversed path: without the file's name, and without the slashes before it
-- unless there is nothing else.
unfoldable pub drop_name : Bytes → Bytes
drop_name [] = []
drop_name (c ∷ p) = if c == b'/' then c ∷ p else drop_name p

unfoldable pub drop_slashes : Bytes → Bytes
drop_slashes [] = []
drop_slashes (c ∷ p) = if c == b'/' then drop_slashes p else c ∷ p

unfoldable pub parent_path : Bytes → Bytes
unfolding drop_name drop_slashes
parent_path p =
    let directory = drop_name (reverse p) in
    let bare = drop_slashes directory in
    if is_empty bare && not (is_empty directory) then b'/' ∷ [] else reverse bare

-- `temporary_`.
abbrev pub part_of : Bytes → Bytes
part_of destination = destination ++ codes ".part"

-- The members that change, and the files. `destination_` and `temporary_` are set once.
pub record Output (F : FileSystem) : Type 0 where
  pub fd : Option F.Fd
  pub committed : Bool
  pub world : F.World

module _ (F : FileSystem) where
  open F use {World, Fd}

  -- A call of the system on the file; there is none behind `fd_ = -1`.
  abbrev pub on_fd : (Fd → World → Bool × World) → Action (Output F) Bool
  on_fd call s = elim s.fd [
    | none ↦ (returned false, s)
    | some fd ↦ (returned (call fd s.world).0, record s { world = (call fd s.world).1 })
  ]

  abbrev pub on_world : {A : Type 0} → (World → A × World) → Action (Output F) A
  on_world call s = (returned (call s.world).0, record s { world = (call s.world).1 })

  unfoldable pub write_some : Bytes → Action (Output F) WriteAnswer
  write_some text s = elim s.fd [
    | none ↦ (returned refused, s)
    | some fd ↦
        (returned (F.write fd text s.world).0, record s { world = (F.write fd text s.world).1 })
  ]

  -- What the loop does with an answer; `again` is the next round, over what has not been written.
  abbrev pub after_write :
      (Bytes → Action (Output F) Done) → Bytes → WriteAnswer → Action (Output F) Done
  after_write again text (wrote zero) = raise (failure (codes "failed writing partial output"))
  after_write again text (wrote (suc n)) = again (drop (suc n) text)
  after_write again text interrupted = again text
  after_write again text refused = raise (failure (codes "failed writing partial output"))

  -- The loop of `write`, on fuel.
  unfoldable pub write : ℕ → Bytes → Action (Output F) Done
  unfolding write_some
  write fuel [] = pure tt
  write zero (c ∷ text) = cut_off
  write (suc fuel) (c ∷ text) = write_some (c ∷ text) >>= after_write (write fuel) (c ∷ text)

  unfoldable pub write_line : ℕ → Bytes → Action (Output F) Done
  write_line fuel line = write fuel line >> write fuel (10 ∷ [])

  abbrev pub set_fd : Option Fd → Action (Output F) Done
  set_fd fd s = (returned tt, record s { fd = fd })

  abbrev pub set_committed : Action (Output F) Done
  set_committed s = (returned tt, record s { committed = true })

  abbrev pub is_committed : Action (Output F) Bool
  is_committed s = (returned s.committed, s)

  -- `std::filesystem::exists`, which throws where it cannot tell.
  unfoldable pub check_absent : Bytes → Action (Output F) Done
  check_absent path s = elim (F.exists path s.world) [
    | none ↦ (raised (failure (codes "filesystem error")), s)
    | some true ↦ (raised (failure (codes "output already exists")), s)
    | some false ↦ (returned tt, s)
  ]

  abbrev pub created : Option Fd → Action (Output F) Done
  created none = raise (failure (codes "cannot create partial output"))
  created (some fd) = set_fd (some fd)

  -- The constructor, on an object whose `fd_` is -1.
  unfoldable pub construct : Bytes → Action (Output F) Done
  unfolding filename
  construct destination = do
    unless (not (is_empty destination || is_empty (filename destination)))
        (failure (codes "output must name a file"))
    check_absent destination
    fd ← on_world (F.create (part_of destination))
    created fd

  abbrev pub directory_of : Bytes → Bytes
  directory_of destination =
      let parent = parent_path destination in if is_empty parent then b'.' ∷ [] else parent

  -- The directory is closed on both ways out, the first time without a look at the answer.
  abbrev pub sync_directory : Option Fd → Action (Output F) Done
  sync_directory none = raise (failure (codes "failed opening output directory"))
  sync_directory (some fd) = do
    synced ← on_world (F.fsync fd)
    closed ← on_world (F.close fd)
    unless synced (failure (codes "failed syncing output directory"))
    unless closed (failure (codes "failed closing output directory"))

  unfoldable pub sync_parent : Bytes → Action (Output F) Done
  unfolding parent_path
  sync_parent destination = do
    fd ← on_world (F.open_directory (directory_of destination))
    sync_directory fd

  -- `commit` from the link on.
  unfoldable pub publish : Bytes → Action (Output F) Done
  unfolding sync_parent
  publish destination = do
    linked ← on_world (F.link (part_of destination) destination)
    unless linked (failure (codes "failed publishing output"))
    unlinked ← on_world (F.unlink (part_of destination))
    unless unlinked (failure (codes "published output but failed removing partial output"))
    sync_parent destination
    set_committed

  -- `fd_` is -1 behind the close, whatever that answers.
  unfoldable pub commit : Bytes → Action (Output F) Done
  unfolding publish
  commit destination = do
    again ← is_committed
    unless (not again) (failure (codes "output already committed"))
    synced ← on_fd F.fsync
    unless synced (failure (codes "failed syncing partial output"))
    closed ← on_fd F.close
    set_fd none
    unless closed (failure (codes "failed closing partial output"))
    publish destination

  unfoldable pub destroy : Action (Output F) Done
  destroy = do closed ← on_fd F.close; pure tt

  -- What is done with a constructed object, and its destructor however that ends.
  abbrev pub in_scope : {A : Type 0} → Action (Output F) A → Action (Output F) A
  in_scope m s = ((m s).0, (destroy (m s).1).1)
