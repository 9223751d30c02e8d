-- ===== src/Zip/Handles.antt =====
-- The files that OpenFS opens and Close closes.
use vire_fs.Base.{ℕ, suc, List, ◌≡◌, refl, ◌∙◌}
use vire_fs.Base.Int.{ℤ}
use vire_fs.Bytes.{Bytes}
use vire_fs.Errors.{Error, Result, ok, err}
use vire_fs.Effect.{Action, ◌>>=◌, then_run, on_error}
use vire_fs.Zip.{ZipFile, ZipFs, close}
use vire_fs.Zip.Open.{OsFile, closing, opened_fs, open_fs}

module _ {W : Type 0} (handles : W → ℕ) where
  -- An open file is one handle, which its Close gives back, whatever error it reports.
  pub record OneHandle (f : OsFile W) (w v : W) : Type 0 where
    pub opens : handles v ≡ suc (handles w)
    pub on_size : (u : W) → handles (f.size u).1 ≡ handles u
    pub closes : (u : W) (n : ℕ) → handles u ≡ suc n → handles (f.close u).1 ≡ n

  pub record CountsHandles (open_file : Bytes → Action W (OsFile W))
      (new_reader : OsFile W → ℤ → Action W (List (ZipFile W))) : Type 0 where
    pub on_open :
        (path : Bytes) (f : OsFile W) (w v : W) → open_file path w ≡ (ok f, v) → OneHandle f w v
    pub open_fails :
        (path : Bytes) (e : Error) (w v : W) → open_file path w ≡ (err e, v) → handles v ≡ handles w
    pub on_read : (f : OsFile W) (n : ℤ) (u : W) → handles (new_reader f n u).1 ≡ handles u

  -- An error leaves as many handles as before; after a success, Close does.
  abbrev pub NoLeak : W → Result (ZipFs W) × W → Type 0
  NoLeak w (ok z, v) = handles (close z v).1 ≡ handles w
  NoLeak w (err e, v) = handles v ≡ handles w

  module _ (f : OsFile W) (w v : W) (one : OneHandle f w v) where
    closed : (u : W) → handles u ≡ handles v → handles (f.close u).1 ≡ handles w
    closed u e = one.closes u (handles w) (e ∙ one.opens)

    read-NoLeak :
        (x : Result (List (ZipFile W)) × W)
        → handles x.1 ≡ handles v
        → NoLeak w (then_run (on_error (λ u. (f.close u).1) x) (opened_fs f))
    unfolding close
    read-NoLeak (ok files, u) e = closed u e
    read-NoLeak (err d, u) e = closed u e

    size-NoLeak :
        (new_reader : OsFile W → ℤ → Action W (List (ZipFile W)))
        → ((n : ℤ) (u : W) → handles (new_reader f n u).1 ≡ handles u)
        → (x : Result ℤ × W) → handles x.1 ≡ handles v
        → NoLeak w (
            then_run
              (on_error (λ u. (f.close u).1) x)
              (λ n. closing f (new_reader f n) >>= opened_fs f))
    size-NoLeak new_reader keeps (ok n, u) e = read-NoLeak (new_reader f n u) (keeps n u ∙ e)
    size-NoLeak new_reader keeps (err d, u) e = closed u e

  module _ (open_file : Bytes → Action W (OsFile W))
      (new_reader : OsFile W → ℤ → Action W (List (ZipFile W)))
      (counts : CountsHandles open_file new_reader) where
    -- However OpenFS ends, no file stays open: if it fails, it has closed what it opened, and if it
    -- succeeds, Close of the store gives the one file back.
    pub open_fs-NoLeak : (path : Bytes) (w : W) → NoLeak w (open_fs open_file new_reader path w)
    unfolding open_fs
    open_fs-NoLeak path w = by_open (open_file path w) refl
      where
        by_open :
            (x : Result (OsFile W) × W)
            → open_file path w ≡ x
            → NoLeak w (
                then_run x
                  (λ f. closing f f.size >>= λ n. closing f (new_reader f n) >>= opened_fs f))
        by_open (err e, v) h = counts.open_fails path e w v h
        by_open (ok f, v) h =
            let one = counts.on_open path f w v h in
            size-NoLeak f w v one new_reader (counts.on_read f) (f.size v) (one.on_size v)
