-- ===== src/Tests/HandleTests.antt =====
-- Archives that are opened and closed.
use vire_fs.Base.Int.{ℤ, pos}
use vire_fs.Base.{ℕ, suc, ◌-◌, arith, List, subst, sym, ap, ◌≡◌, refl}
use vire_fs.Bytes.{Bytes, codes}
use vire_fs.Errors.{foreign, ok, err, ok-injective}
use vire_fs.Effect.{Action}
use vire_fs.Zip.{ZipFile}
use vire_fs.Zip.Open.{OsFile, open_fs}
use vire_fs.Zip.Handles.{OneHandle, CountsHandles, NoLeak, open_fs-NoLeak}

-- The world is the number of open files; a file whose path is empty is no archive.
abbrev file : OsFile ℕ
file = record { size = λ w. (ok (pos 0), w); close = λ w. (ok tt, w - 1) }

abbrev open_any : Bytes → Action ℕ (OsFile ℕ)
open_any path w = (ok file, suc w)

abbrev no_archive : OsFile ℕ → ℤ → Action ℕ (List (ZipFile ℕ))
no_archive f n w = (err (foreign 1), w)

any-CountsHandles : CountsHandles (λ w. w) open_any no_archive
any-CountsHandles = record {
  on_open = λ path f w v h.
      let world : suc w ≡ v = ap (λ y. y.1) h in
      subst (λ g. OneHandle (λ w. w) g w v) (ok-injective (ap (λ y. y.0) h))
        (record { opens = sym world; on_size = λ u. refl; closes = λ u n e. omega arith });
  open_fails = λ path e w v h. cc;
  on_read = λ f n u. refl;
}

refused : open_fs open_any no_archive (codes "x") 5 ≡ (err (foreign 1), 5)
unfolding open_fs
refused = refl

open_fs-NoLeak_example : NoLeak (λ w. w) 5 (open_fs open_any no_archive (codes "x") 5)
open_fs-NoLeak_example = open_fs-NoLeak (λ w. w) open_any no_archive any-CountsHandles (codes "x") 5
