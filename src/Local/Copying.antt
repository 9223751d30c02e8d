-- ===== src/Local/Copying.antt =====
-- What Copy of a local store does to the contents of the disk.
use vire_fs.Base.{none, some, [], ◌≡◌, ◌≢◌, ap, sym, ◌∙◌}
use vire_fs.Bytes.{Bytes}
use vire_fs.Errors.{op_error, ok}
use vire_fs.Effect.{
  Action, Context, ◌>>=◌, ◌>>◌, bind-eq-ok, map_error, map_error-eq-ok, deferred, deferred-eq,
}
use vire_fs.Fs.{ReadCloser, io_copy}
use vire_fs.GoPath.{dir}
use vire_fs.Local.{Os, LocalFs, File, full_path, map_os_error}
use vire_fs.Local.Operations.{copy_from, copy}
use vire_fs.Fs.Contents.{Contents, Unchanged, UnchangedBut, ReadsFrom}
use vire_fs.Local.FileSystem.{FileSystem, io_copy-UnchangedBut, io_copy-appends}
use vire_fs.Local.Contents.{start-bind-eq-ok}

module _ {W : Type 0} (content : Contents W) (os : Os W) (fs : FileSystem content os)
    (l : LocalFs) where
  -- The target is emptied first; what is read after that is what the target gets.
  record Transferred (p q : Bytes) (w w' : W) : Type 0 where
    middle : W
    bytes : Bytes
    emptied : content middle q ≡ some []
    before : UnchangedBut content q w middle
    read : content middle p ≡ some bytes
    holds : content w' q ≡ some bytes
    others : UnchangedBut content q w w'

  copy_from-Transferred :
      (dst_key p q : Bytes) (sf : ReadCloser W) (w w' : W)
      → ReadsFrom content p sf
      → copy_from os l dst_key q sf w ≡ (ok tt, w')
      → Transferred p q w w'
  unfolding copy_from
  copy_from-Transferred dst_key p q sf w w' from h =
      let write = λ (df : File W). deferred (λ x. (df.close x).1) (io_copy df.write sf.read) in
      let mkdir = os.mkdir_all (dir q) l.dir_perm in
      let h' = map_error-eq-ok (op_error "Copy" dst_key) (mkdir >> os.create q >>= write) w h in
      let (df, x, made, h'') = bind-eq-ok (mkdir >> os.create q) write w h' in
      let (_, v, there, created) = bind-eq-ok mkdir (λ _. os.create q) w made in
      let c = fs.create q df v x created in
      let (y, wrote, closed) = deferred-eq (λ z. (df.close z).1) (io_copy df.write sf.read) x h'' in
      let (given, filled) =
        io_copy-appends content c.writes sf.read from.keeps [] x y c.empty wrote in
      let calm : Unchanged content w v =
        λ k. ap (λ z. content z.1 k) (sym there) ∙ fs.mkdir_all (dir q) l.dir_perm w k in
      let after : Unchanged content y w' =
        λ k. ap (λ z. content z k) closed ∙ c.writes.closes y k in
      record {
        middle = x;
        bytes = (sf.read x).0.0;
        emptied = c.empty;
        before = λ k ne. c.elsewhere k ne ∙ calm k;
        read = from.reads x (sf.read x).0.0 given;
        holds = after q ∙ filled;
        others = λ k ne.
            after k
            ∙ ap (λ z. content z.1 k) (sym wrote)
            ∙ io_copy-UnchangedBut content c.writes sf.read from.keeps x k ne
            ∙ c.elsewhere k ne
            ∙ calm k;
      }

  module _ (ctx : Context W) (src_key dst_key : Bytes) {p q : Bytes} (w w' : W)
      (at : full_path os l src_key w ≡ (ok p, w)) (at' : full_path os l dst_key w ≡ (ok q, w))
      (done : copy os l ctx src_key dst_key w ≡ (ok tt, w')) where
    abbrev from_open : Bytes → Bytes → ReadCloser W → Action W (Unit {0})
    from_open src_path dst_path sf = deferred sf.close (copy_from os l dst_key dst_path sf)

    abbrev open_source : Bytes → Action W (ReadCloser W)
    open_source src_path =
        map_error (λ e. op_error "Copy" src_key (map_os_error os e)) (os.open_file src_path)

    opened : (open_source p >>= from_open p q) w ≡ (ok tt, w')
    unfolding copy
    opened = rw at' at (
        start-bind-eq-ok os l "Copy" ctx src_key
          (λ src_path. map_error (op_error "Copy" dst_key) (full_path os l dst_key) >>= λ dst_path.
            open_source src_path >>= from_open src_path dst_path)
          w at done)

    copy-Transferred : Transferred p q w w'
    copy-Transferred =
        let (sf, v, got, h) = bind-eq-ok (open_source p) (from_open p q) w opened in
        let (u, copied, closed) = deferred-eq sf.close (copy_from os l dst_key q sf) v h in
        let (same, from) = fs.open_file p sf w v (
          map_error-eq-ok (λ e. op_error "Copy" src_key (map_os_error os e)) (os.open_file p) w
            got) in
        let t = copy_from-Transferred dst_key p q sf v u from copied in
        let after : Unchanged content u w' = λ k. ap (λ z. content z k) closed ∙ from.closes u k in
        record {
          middle = t.middle;
          bytes = t.bytes;
          emptied = t.emptied;
          before = λ k ne. t.before k ne ∙ same k;
          read = t.read;
          holds = after q ∙ t.holds;
          others = λ k ne. after k ∙ t.others k ne ∙ same k;
        }

    -- If Copy succeeds between keys of different files, the second file holds what the first one
    -- held, and every other file is as it was.
    pub copy-content :
        p ≢ q → (content w' q ≡ content w p) × UnchangedBut content q w w' × (content w p ≢ none)
    copy-content ne =
        let t = copy-Transferred in
        let same : content w p ≡ some t.bytes = sym (t.before p ne) ∙ t.read in
        (t.holds ∙ sym same, t.others, λ missing. cc)

  -- Copy of a file onto itself empties it, and reports success.
  pub copy_self-content :
      (ctx : Context W) (src_key dst_key : Bytes) {p : Bytes} (w w' : W)
      → full_path os l src_key w ≡ (ok p, w)
      → full_path os l dst_key w ≡ (ok p, w)
      → copy os l ctx src_key dst_key w ≡ (ok tt, w')
      → content w' p ≡ some []
  copy_self-content ctx src_key dst_key w w' at at' done =
      let t = copy-Transferred ctx src_key dst_key w w' at at' done in
      cc (t.holds, t.read, t.emptied)
