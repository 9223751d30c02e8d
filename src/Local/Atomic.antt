-- ===== src/Local/Atomic.antt =====
-- Put by way of a temporary file: all or nothing.
use vire_fs.Base.{none, some, [], inl, inr, ◌≡◌, ◌≢◌, refl, ap, sym, ◌∙◌}
use vire_fs.Bytes.{Bytes, codes}
use vire_fs.Errors.{Error, op_error, Result, ok, err}
use vire_fs.Effect.{
  on_error, Action, ◌>>=◌, ◌>>◌, bind-eq-ok, bind-eq-err, map_error-eq-ok, map_error-eq-err,
}
use vire_fs.Fs.{Reader, io_copy}
use vire_fs.Local.{Os, LocalFs, TempFile}
use vire_fs.Local.Operations.{write_temp, close_temp, rename_temp, fill_temp, put_atomic}
use vire_fs.Fs.Contents.{Contents, Unchanged, UnchangedBut, Keeps, Stored}
use vire_fs.Local.FileSystem.{WritesTo, FileSystem, io_copy-UnchangedBut, io_copy-appends}

on_error-eq-ok :
    {W A : Type 0} (f : W → W) (x : Result A × W) {a : A} {v : W}
    → on_error f x ≡ (ok a, v)
    → x ≡ (ok a, v)
on_error-eq-ok f (ok b, w) h = h
on_error-eq-ok f (err e, w) h = cc

module _ {W : Type 0} (content : Contents W) (os : Os W) (fs : FileSystem content os) (l : LocalFs)
    (r : Reader W) (still : Keeps content r) where
  module _ (tmp : TempFile W) (k : WritesTo content tmp.name tmp.file) where
    abbrev Calm : W → W → Type 0
    Calm = UnchangedBut content tmp.name

    Calm-on_error :
        {A : Type 0} (f : W → W) (w : W) (x : Result A × W)
        → Calm w x.1
        → ((v : W) → Calm v (f v))
        → Calm w (on_error f x).1
    Calm-on_error f w (ok a, v) h g q ne = h q ne
    Calm-on_error f w (err e, v) h g q ne = g v q ne ∙ h q ne

    write_temp-Calm : (w : W) → Calm w (write_temp os l tmp r w).1
    unfolding write_temp
    write_temp-Calm w =
        Calm-on_error _ w (io_copy tmp.file.write r w) (io_copy-UnchangedBut content k r still w)
          (λ v q ne. fs.remove tmp.name _ q ne ∙ k.closes v q)

    close_temp-Calm : (w : W) → Calm w (close_temp os l tmp w).1
    unfolding close_temp
    close_temp-Calm w =
        Calm-on_error _ w (tmp.file.close w) (λ q _. k.closes w q)
          (λ v q ne. fs.remove tmp.name v q ne)

    rename_temp-Calm :
        (target : Bytes) {e : Error} (w w' : W)
        → rename_temp os l tmp target w ≡ (err e, w')
        → Calm w w'
    unfolding rename_temp
    rename_temp-Calm target {e} w w' h = by_rename (os.rename tmp.name target w) refl h
      where
        by_rename :
            (x : Result (Unit {0}) × W)
            → os.rename tmp.name target w ≡ x
            → on_error (λ v. (os.remove tmp.name v).1) x ≡ (err e, w')
            → Calm w w'
        by_rename (ok u, v) p d = cc
        by_rename (err d, v) p c = λ q ne.
            ap (λ y. content y.1 q) (sym c)
            ∙ fs.remove tmp.name v q ne
            ∙ fs.rename_fails tmp.name target d w v p q

    abbrev later : Bytes → Unit {0} → Action W (Unit {0})
    later target _ = close_temp os l tmp >> rename_temp os l tmp target

    fill_temp-Calm :
        (target : Bytes) {e : Error} (w w' : W)
        → fill_temp os l target r tmp w ≡ (err e, w')
        → Calm w w'
    unfolding fill_temp
    fill_temp-Calm target {e} w w' h q ne =
        elim (bind-eq-err (write_temp os l tmp r) (later target) w h) [
          | inl first ↦ ap (λ y. content y.1 q) (sym first) ∙ write_temp-Calm w q ne
          | inr (_, v, wrote, h') ↦
              let calm : content v q ≡ content w q =
                ap (λ y. content y.1 q) (sym wrote) ∙ write_temp-Calm w q ne in
              elim (bind-eq-err (close_temp os l tmp) (λ _. rename_temp os l tmp target) v h') [
                | inl second ↦ ap (λ y. content y.1 q) (sym second) ∙ close_temp-Calm v q ne ∙ calm
                | inr (_, u, closed, h'') ↦
                    rename_temp-Calm target u w' h'' q ne
                    ∙ ap (λ y. content y.1 q) (sym closed)
                    ∙ close_temp-Calm v q ne
                    ∙ calm
              ]
        ]

    write_temp-eq-ok :
        (w v : W) → write_temp os l tmp r w ≡ (ok tt, v) → io_copy tmp.file.write r w ≡ (ok tt, v)
    unfolding write_temp
    write_temp-eq-ok w v h = on_error-eq-ok _ _ h

    close_temp-eq-ok :
        (w v : W) → close_temp os l tmp w ≡ (ok tt, v) → tmp.file.close w ≡ (ok tt, v)
    unfolding close_temp
    close_temp-eq-ok w v h = on_error-eq-ok _ _ h

    rename_temp-eq-ok :
        (target : Bytes) (w v : W)
        → rename_temp os l tmp target w ≡ (ok tt, v)
        → os.rename tmp.name target w ≡ (ok tt, v)
    unfolding rename_temp
    rename_temp-eq-ok target w v h = on_error-eq-ok _ _ h

    -- The file was empty in `w`, and no file in `before`.
    fill_temp-Stored :
        (target : Bytes) (before w w' : W)
        → content before tmp.name ≡ none
        → Calm before w
        → content w tmp.name ≡ some []
        → fill_temp os l target r tmp w ≡ (ok tt, w')
        → Stored content r target before w'
    unfolding fill_temp
    fill_temp-Stored target before w w' fresh calm empty h =
        let (_, v, wrote, h') = bind-eq-ok (write_temp os l tmp r) (later target) w h in
        let (_, u, closed, h'') =
          bind-eq-ok (close_temp os l tmp) (λ _. rename_temp os l tmp target) v h' in
        let wrote' = write_temp-eq-ok w v wrote in
        let closed' = close_temp-eq-ok v u closed in
        let renamed = rename_temp-eq-ok target u w' h'' in
        let (moved, rest) = fs.rename tmp.name target u w' renamed in
        let (given, filled) = io_copy-appends content k r still [] w v empty wrote' in
        let kept : Unchanged content v u =
          λ q. ap (λ y. content y.1 q) (sym closed') ∙ k.closes v q in
        let calm' : Calm before v = λ q ne.
          ap (λ y. content y.1 q) (sym wrote')
          ∙ io_copy-UnchangedBut content k r still w q ne
          ∙ calm q ne in
        record {
          at = w;
          bytes = (r w).0.0;
          given = given;
          holds = moved ∙ kept tmp.name ∙ filled;
          others = λ q c ne there.
              let other : q ≢ tmp.name = λ e. cc in
              rest q other ne ∙ kept q ∙ calm' q other ∙ there;
        }

  abbrev make : Bytes → Action W (TempFile W)
  make parent = os.create_temp parent (codes ".virefs-tmp-*")

  pub put_atomic-Stored :
      (target parent key : Bytes) (w w' : W)
      → put_atomic os l target parent key r w ≡ (ok tt, w')
      → Stored content r target w w'
  unfolding put_atomic
  put_atomic-Stored target parent key w w' h =
      let (tmp, v, made, h') =
        bind-eq-ok (make parent) (fill_temp os l target r) w
          (map_error-eq-ok (op_error "Put" key) (make parent >>= fill_temp os l target r) w h) in
      let (fresh, c) = fs.create_temp _ _ tmp w v made in
      fill_temp-Stored tmp c.writes target w v w' fresh c.elsewhere c.empty h'

  -- Every file that there was is as it was, if the write fails.
  pub put_atomic-fails :
      (target parent key : Bytes) {e : Error} (w w' : W)
      → put_atomic os l target parent key r w ≡ (err e, w')
      → (q c : Bytes) → content w q ≡ some c
      → content w' q ≡ some c
  unfolding put_atomic
  put_atomic-fails target parent key w w' h q c there =
      let (d, failed, _) =
        map_error-eq-err (op_error "Put" key) (make parent >>= fill_temp os l target r) w h in
      elim (bind-eq-err (make parent) (fill_temp os l target r) w failed) [
        | inl no_temp ↦ fs.create_temp_fails _ _ d w w' no_temp q ∙ there
        | inr (tmp, v, made, h') ↦
            let (fresh, k) = fs.create_temp _ _ tmp w v made in
            let other : q ≢ tmp.name = λ e. cc in
            fill_temp-Calm tmp k.writes target v w' h' q other ∙ k.elsewhere q other ∙ there
      ]
