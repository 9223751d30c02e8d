-- ===== src/Local/Contents.antt =====
-- What Put and Get do to the contents of the disk.
use vire_fs.Base.{
  Bool, true, none, some, List, [], inl, inr, ◌≡◌, ap, sym, ◌∙◌, if◌then◌else◌, Option-cases,
  Bool-cases, subst,
}
use Prim.Native.String.{String}
use vire_fs.Bytes.{Bytes}
use vire_fs.Errors.{Error, op_error, Result, ok, err}
use vire_fs.Effect.{
  Action, Context, ◌>>=◌, ◌>>◌, bind-eq-ok, bind-eq-err, map_error, map_error-eq-ok, deferred,
  deferred-eq,
}
use vire_fs.Fs.{Reader, ReadCloser, PutOption, io_copy}
use vire_fs.GoPath.{dir}
use vire_fs.Local.{Os, LocalFs, full_path, map_os_error}
use vire_fs.Local.Operations.{start, put_plain, put_atomic, put, get}
use vire_fs.Fs.Contents.{Contents, Unchanged, Keeps, Stored}
use vire_fs.Local.FileSystem.{FileSystem, io_copy-UnchangedBut, io_copy-appends}
use vire_fs.Local.Atomic.{put_atomic-Stored, put_atomic-fails}

module _ {W : Type 0} (os : Os W) (l : LocalFs) where
  -- An operation that gets past its beginning has the path.
  start-eq-ok :
      (op : String) (ctx : Context W) (key : Bytes) (w : W) {p : Bytes} {v : W}
      → start os l op ctx key w ≡ (ok p, v)
      → (ctx w ≡ none) × (full_path os l key w ≡ (ok p, v))
  start-eq-ok op ctx key w h = elim (Option-cases (ctx w)) [
    | inl alive ↦ (alive, map_error-eq-ok (op_error op key) (full_path os l key) w (rw alive at h))
    | inr (e, dead) ↦ cc (rw dead at h)
  ]

  -- So it goes on in the world that it began in, where finding the path changes nothing.
  pub start-bind-eq-ok :
      {A : Type 0} (op : String) (ctx : Context W) (key : Bytes) (f : Bytes → Action W A) (w : W)
      {p : Bytes} {a : A} {w' : W}
      → full_path os l key w ≡ (ok p, w)
      → (start os l op ctx key >>= f) w ≡ (ok a, w')
      → f p w ≡ (ok a, w')
  start-bind-eq-ok op ctx key f w {p} {a} {w'} at h =
      let (p', v, e, h') = bind-eq-ok (start os l op ctx key) f w h in
      let same = sym ((start-eq-ok op ctx key w e).1) ∙ at in
      subst (λ (x : Bytes × W). f x.0 x.1 ≡ (ok a, w')) (λ i. (result_of (same i).0, (same i).1)) h'
    where
      result_of : Result Bytes → Bytes
      result_of (ok q) = q
      result_of (err d) = []

module _ {W : Type 0} (content : Contents W) (os : Os W) (fs : FileSystem content os) (l : LocalFs)
    (ctx : Context W) (key : Bytes) (r : Reader W) (still : Keeps content r) (opts : List PutOption)
    {p : Bytes} (w : W) (at : full_path os l key w ≡ (ok p, w)) where
  put_plain-Stored :
      (v w' : W)
      → Unchanged content w v
      → put_plain os l p key r v ≡ (ok tt, w')
      → Stored content r p w w'
  unfolding put_plain
  put_plain-Stored v w' calm h =
      let (f, u, made, h') =
        bind-eq-ok (map_error (op_error "Put" key) (os.create p))
          (λ f. deferred (λ x. (f.close x).1) (map_error (op_error "Put" key) (io_copy f.write r)))
          v h in
      let c = fs.create p f v u (map_error-eq-ok (op_error "Put" key) (os.create p) v made) in
      let (x, wrote, closed) =
        deferred-eq (λ x. (f.close x).1) (map_error (op_error "Put" key) (io_copy f.write r)) u
          h' in
      let wrote' = map_error-eq-ok (op_error "Put" key) (io_copy f.write r) u wrote in
      let (given, filled) = io_copy-appends content c.writes r still [] u x c.empty wrote' in
      let after : Unchanged content x w' =
        λ q. ap (λ y. content y q) closed ∙ c.writes.closes x q in
      record {
        at = u;
        bytes = (r u).0.0;
        given = given;
        holds = after p ∙ filled;
        others = λ q b ne there.
            after q
            ∙ ap (λ y. content y.1 q) (sym wrote')
            ∙ io_copy-UnchangedBut content c.writes r still u q ne
            ∙ c.elsewhere q ne
            ∙ calm q
            ∙ there;
      }

  -- Put, once the directory is there.
  abbrev write_by : Bool → Bytes → Action W (Unit {0})
  write_by atomic target =
      if atomic then put_atomic os l target (dir target) key r else put_plain os l target key r

  abbrev make_dir : Bytes → Action W (Unit {0})
  make_dir target = map_error (op_error "Put" key) (os.mkdir_all (dir target) l.dir_perm)

  make_dir-Unchanged :
      {x : Result (Unit {0})} {v : W} → make_dir p w ≡ (x, v) → Unchanged content w v
  make_dir-Unchanged h q = ap (λ y. content y.1 q) (sym h) ∙ fs.mkdir_all (dir p) l.dir_perm w q

  write-Stored :
      (v w' : W)
      → Unchanged content w v
      → write_by l.atomic_write p v ≡ (ok tt, w')
      → Stored content r p w w'
  write-Stored v w' calm h = elim (Bool-cases l.atomic_write) [
    | inr plain ↦ put_plain-Stored v w' calm (ap (λ b. write_by b p v) (sym plain) ∙ h)
    | inl atomic ↦
        let s =
          put_atomic-Stored content os fs l r still p (dir p) key v w'
            (ap (λ b. write_by b p v) (sym atomic) ∙ h) in
        record {
          at = s.at;
          bytes = s.bytes;
          given = s.given;
          holds = s.holds;
          others = λ q c ne there. s.others q c ne (calm q ∙ there);
        }
  ]

  -- If Put succeeds, with or without a temporary file, the file of the key holds the bytes that the
  -- reader gave, and every other file that there was is as it was.
  pub put-Stored : (w' : W) → put os l ctx key r opts w ≡ (ok tt, w') → Stored content r p w w'
  unfolding put
  put-Stored w' h =
      let h' =
        start-bind-eq-ok os l "Put" ctx key (λ q. make_dir q >> write_by l.atomic_write q) w at h in
      let (_, v, made, h'') = bind-eq-ok (make_dir p) (λ _. write_by l.atomic_write p) w h' in
      write-Stored v w' (make_dir-Unchanged made) h''

  -- If Put by way of a temporary file fails, every file that there was is as it was, also the one of
  -- the key.
  pub put_of_atomic_fails :
      (w' : W) {e : Error}
      → l.atomic_write ≡ true
      → put os l ctx key r opts w ≡ (err e, w')
      → (q c : Bytes) → content w q ≡ some c
      → content w' q ≡ some c
  unfolding put
  put_of_atomic_fails w' {e} atomic h q c there = elim (Option-cases (ctx w)) [
    | inr (d, dead) ↦ cc (rw dead at h)
    | inl alive ↦
        elim (bind-eq-err (make_dir p) (λ _. write_by l.atomic_write p) w (rw (alive, at) at h)) [
          | inl no_dir ↦ make_dir-Unchanged no_dir q ∙ there
          | inr (_, v, made, h') ↦
              put_atomic-fails content os fs l r still p (dir p) key v w'
                (ap (λ b. write_by b p v) (sym atomic) ∙ h') q c (make_dir-Unchanged made q ∙ there)
        ]
  ]

-- What a later Get of the key reads, while the disk is as Put left it, is what Put was given.
get-put :
    {W : Type 0} (content : Contents W) (os : Os W) (fs : FileSystem content os) (l : LocalFs)
    (ctx ctx' : Context W) (key : Bytes) (r : Reader W) (still : Keeps content r)
    (opts : List PutOption) {p : Bytes} (w w' : W) {rc : ReadCloser W} {v : W} {b : Bytes}
    → full_path os l key w ≡ (ok p, w)
    → put os l ctx key r opts w ≡ (ok tt, w')
    → full_path os l key w' ≡ (ok p, w')
    → get os l ctx' key w' ≡ (ok rc, v)
    → (rc.read v).0 ≡ (b, none)
    → (u : W) × ((r u).0 ≡ (b, none))
unfolding get
get-put content os fs l ctx ctx' key r still opts {p} w w' {rc} {v} {b} at stored at' got read =
    let s = put-Stored content os fs l ctx key r still opts w at w' stored in
    let opened =
      map_error-eq-ok (λ e. op_error "Get" key (map_os_error os e)) (os.open_file p) w'
        (start-bind-eq-ok os l "Get" ctx' key
          (λ q. map_error (λ e. op_error "Get" key (map_os_error os e)) (os.open_file q)) w' at'
          got) in
    let (same, from) = fs.open_file p rc w' v opened in
    let held : content v p ≡ some b = from.reads v b read in
    let bytes : s.bytes ≡ b = cc (s.holds, same p, held) in
    (s.at, s.given ∙ ap (λ c. (c, none)) bytes)
