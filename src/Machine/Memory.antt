-- ===== src/Machine/Memory.antt =====
-- A file system in memory, which meets the laws: the files by their names as they are.
use runtime_class_manager.Base.{
  ◌≡◌, refl, false, true, Option, some, none, [], ◌++◌, Text, text_eq, ◌==◌, arith, if◌then◌else◌,
}
use runtime_class_manager.Base.Dict.{Dict, lookup, insert, erase, lookup-insert, lookup-erase}
use runtime_class_manager.Go.Outcome.{Error, is_not_exist, ok, err, Err, not_exist, Action, pure}
use runtime_class_manager.Machine.{Fs, Machine}
use runtime_class_manager.Machine.Laws.{IsLawful}

abbrev pub Files : Type 0
Files = Dict Text Text

-- A call on a file that has to exist.
abbrev with_file : {A : Type 0} → Text → (Text → Action Files A) → Action Files A
with_file p f w = elim (lookup p w) [ none ↦ (err (not_exist p), w) | some b ↦ f b w ]

abbrev old_or_empty : Option Text → Text
old_or_empty none = []
old_or_empty (some b) = b

abbrev read_end : Text → Files → (Text × Err) × Files
read_end p w = elim (lookup p w) [ none ↦ (([], some (not_exist p)), w) | some b ↦ ((b, none), w) ]

abbrev pub memory_fs : Fs Files
memory_fs = record {
  stat = λ p. with_file p (λ _. pure (record { name = p; is_dir = false }));
  read_dir = λ p. pure [];
  read_file = λ p. with_file p (λ b. pure b);
  write_file = λ p b w. (ok tt, insert p b w);
  mkdir_all = λ p. pure tt;
  open_read = λ p. with_file p (λ _. pure tt);
  open_trunc = λ p w. (ok tt, insert p [] w);
  open_append = λ p. with_file p (λ _. pure tt);
  read_all = read_end;
  write_all = λ p b w. ((b, none), insert p (old_or_empty (lookup p w) ++ b) w);
  append = λ p b. with_file p (λ old w. (ok tt, insert p (old ++ b) w));
  sync = λ p. pure tt;
  close = λ p. pure tt;
  remove = λ p. with_file p (λ _ w. (ok tt, erase p w));
}

abbrev found : Files → Text → Option Text
found w q = lookup q w

with_file-Keeps :
    {A : Type 0} (p q : Text) (a : Text → A) (w : Files)
    → found (with_file p (λ b. pure (a b)) w).1 q ≡ found w q
with_file-Keeps p q a w = ground arith

found-read_file : (p b : Text) (w : Files) → (memory_fs.read_file p w).0 ≡ ok b → found w p ≡ some b
found-read_file p b w h = ground arith

missing-read_file :
    (p : Text) (e : Error) (w : Files)
    → (memory_fs.read_file p w).0 ≡ err e
    → is_not_exist e ≡ true
    → found w p ≡ none
missing-read_file p e w h n = ground arith

found-write_all :
    (p b : Text) (w : Files) (q : Text) {old : Text}
    → found w p ≡ some old
    → found (memory_fs.write_all p b w).1 q
      ≡ (if q == p then some (old ++ (memory_fs.write_all p b w).0.0) else found w q)
found-write_all p b w q {old} e = ground (arith, lookup-insert q p (old ++ b) w)

found-open_trunc :
    (p : Text) (w : Files) (q : Text)
    → (memory_fs.open_trunc p w).0 ≡ ok tt
    → found (memory_fs.open_trunc p w).1 q ≡ (if q == p then some [] else found w q)
found-open_trunc p w q h = lookup-insert q p [] w

found-write_file :
    (p b : Text) (w : Files) (q : Text)
    → (memory_fs.write_file p b w).0 ≡ ok tt
    → found (memory_fs.write_file p b w).1 q ≡ (if q == p then some b else found w q)
found-write_file p b w q h = lookup-insert q p b w

found-append :
    (p b : Text) (w : Files) (q : Text) {old : Text}
    → found w p ≡ some old
    → (memory_fs.append p b w).0 ≡ ok tt
    → found (memory_fs.append p b w).1 q ≡ (if q == p then some (old ++ b) else found w q)
found-append p b w q {old} e h = ground (arith, lookup-insert q p (old ++ b) w)

found-remove :
    (p : Text) (w : Files) (q : Text)
    → (memory_fs.remove p w).0 ≡ ok tt
    → found (memory_fs.remove p w).1 q ≡ (if q == p then none else found w q)
found-remove p w q h = ground (arith, lookup-erase q p w)

missing-remove :
    (p : Text) (e : Error) (w : Files)
    → (memory_fs.remove p w).0 ≡ err e
    → is_not_exist e ≡ true
    → (found w p ≡ none) × ((q : Text) → found (memory_fs.remove p w).1 q ≡ found w q)
missing-remove p e w h n = (ground arith, λ q. ground arith)

unfoldable pub memory_fs-IsLawful : IsLawful memory_fs
unfolding with_file-Keeps found-read_file missing-read_file found-open_trunc found-write_all
    found-write_file found-append found-remove missing-remove
memory_fs-IsLawful = record {
  content = found;
  resolve = λ p. p;
  read_file-Keeps = λ p w q. with_file-Keeps p q (λ b. b) w;
  stat-Keeps = λ p w q. with_file-Keeps p q (λ _. record { name = p; is_dir = false }) w;
  mkdir_all-Keeps = λ p w q. refl;
  open_append-Keeps = λ p w q. with_file-Keeps p q (λ _. tt) w;
  close-Keeps = λ p w q. refl;
  content-read_file = found-read_file;
  missing-read_file = missing-read_file;
  content-open_trunc = found-open_trunc;
  content-write_all = found-write_all;
  write_all-whole = λ p b w h. refl;
  content-write_file = found-write_file;
  content-append = found-append;
  content-remove = found-remove;
  missing-remove = missing-remove;
}

-- A machine on one such file system, with no systemd, no process and no environment; its digest is
-- the text itself.
abbrev pub memory_machine : Machine Files
memory_machine = record {
  root_fs = memory_fs;
  host_fs = memory_fs;
  exec = λ cmd w. (([], some (not_exist [])), w);
  processes = pure [];
  kill = λ pid. pure tt;
  getenv = λ name. [];
  sha256 = λ text. text;
}
