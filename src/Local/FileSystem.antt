-- ===== src/Local/FileSystem.antt =====
-- What the operating system's calls do to the contents of files, as their documentation says, on a
-- disk where different paths are different files. The contents are a view of the world: `none` is
-- no file.
use vire_fs.Base.{ℕ, Option, none, some, [], ◌++◌, ◌≡◌, ◌≢◌, refl, ap, ◌∙◌}
use vire_fs.Bytes.{Bytes}
use vire_fs.Errors.{Error, Result, ok, err}
use vire_fs.Effect.{then_run, or_error}
use vire_fs.Fs.{Reader, ReadCloser, io_copy}
use vire_fs.Fs.Contents.{Contents, Unchanged, UnchangedBut, ReadsFrom, Keeps}
use vire_fs.Local.{Os, File, TempFile}

module _ {W : Type 0} (content : Contents W) where
  -- A file that is open for writing at the path.
  pub record WritesTo (p : Bytes) (f : File W) : Type 0 where
    pub elsewhere : (b : Bytes) (w : W) → UnchangedBut content p w (f.write b w).1
    pub appends :
        (b c : Bytes) (w v : W)
        → content w p ≡ some c
        → f.write b w ≡ (ok tt, v)
        → content v p ≡ some (c ++ b)
    pub closes : (w : W) → Unchanged content w (f.close w).1

  -- An empty file was made, or the file was emptied.
  pub record Created (p : Bytes) (f : File W) (w v : W) : Type 0 where
    pub empty : content v p ≡ some []
    pub elsewhere : UnchangedBut content p w v
    pub writes : WritesTo p f

  pub record FileSystem (os : Os W) : Type 0 where
    pub mkdir_all : (p : Bytes) (perm : ℕ) (w : W) → Unchanged content w (os.mkdir_all p perm w).1
    pub create : (p : Bytes) (f : File W) (w v : W) → os.create p w ≡ (ok f, v) → Created p f w v
    pub create_fails :
        (p : Bytes) (e : Error) (w v : W) → os.create p w ≡ (err e, v) → Unchanged content w v
    pub create_temp :
        (d pattern : Bytes) (t : TempFile W) (w v : W)
        → os.create_temp d pattern w ≡ (ok t, v)
        → (content w t.name ≡ none) × Created t.name t.file w v
    pub create_temp_fails :
        (d pattern : Bytes) (e : Error) (w v : W)
        → os.create_temp d pattern w ≡ (err e, v)
        → Unchanged content w v
    pub remove : (p : Bytes) (w : W) → UnchangedBut content p w (os.remove p w).1
    pub removed : (p : Bytes) (w v : W) → os.remove p w ≡ (ok tt, v) → content v p ≡ none
    pub rename :
        (a b : Bytes) (w v : W)
        → os.rename a b w ≡ (ok tt, v)
        → (content v b ≡ content w a) × ((q : Bytes) → q ≢ a → q ≢ b → content v q ≡ content w q)
    pub rename_fails :
        (a b : Bytes) (e : Error) (w v : W) → os.rename a b w ≡ (err e, v) → Unchanged content w v
    pub open_file :
        (p : Bytes) (rc : ReadCloser W) (w v : W)
        → os.open_file p w ≡ (ok rc, v)
        → Unchanged content w v × ReadsFrom content p rc

after_write :
    {W : Type 0} (e : Option Error) (x : Result (Unit {0}) × W)
    → (then_run x (λ _. or_error e tt)).1 ≡ x.1
after_write none (ok t, w) = refl
after_write (some e) (ok t, w) = refl
after_write e (err d, w) = refl

write_ok :
    {W : Type 0} (e : Option Error) (x : Result (Unit {0}) × W) {v : W}
    → then_run x (λ _. or_error e tt) ≡ (ok tt, v)
    → (e ≡ none) × (x ≡ (ok tt, v))
write_ok none (ok t, w) h = (refl, h)
write_ok (some e) (ok t, w) h = cc
write_ok e (err d, w) h = cc

module _ {W : Type 0} (content : Contents W) {p : Bytes} {f : File W} (k : WritesTo content p f)
    (r : Reader W) (still : Keeps content r) where
  pub io_copy-UnchangedBut : (w : W) → UnchangedBut content p w (io_copy f.write r w).1
  io_copy-UnchangedBut w q ne =
      ap (λ v. content v q) (after_write (r w).0.1 (f.write (r w).0.0 (r w).1))
      ∙ k.elsewhere (r w).0.0 (r w).1 q ne
      ∙ still w q

  -- The file gets the bytes that the reader gives, behind those that it has.
  pub io_copy-appends :
      (c : Bytes) (w v : W)
      → content w p ≡ some c
      → io_copy f.write r w ≡ (ok tt, v)
      → ((r w).0 ≡ ((r w).0.0, none)) × (content v p ≡ some (c ++ (r w).0.0))
  io_copy-appends c w v e h =
      let (clean, done) = write_ok (r w).0.1 (f.write (r w).0.0 (r w).1) h in
      (ap (λ x. ((r w).0.0, x)) clean, k.appends (r w).0.0 c (r w).1 v (still w p ∙ e) done)
