-- ===== src/Fs/Copying.antt =====
-- What `Copy` between two stores does to the contents of both.
use vire_fs.Base.{none, some, List, [], ◌∷◌, ◌≡◌, ◌≢◌, ap, sym, ◌∙◌}
use vire_fs.Bytes.{Bytes}
use vire_fs.Errors.{wrap, ok}
use vire_fs.Effect.{Context, bind-eq-ok, map_error, map_error-eq-ok, deferred, deferred-eq}
use vire_fs.Fs.{Fs, Reader, ReadCloser, PutOption, native_copier, copy}
use vire_fs.Fs.Contents.{Contents, Unchanged, Opened, Keeps, Stored}
use vire_fs.Fs.Transfer.{copy-transfer}

-- A Put that took its bytes in a world where the source was as before, and left the source alone.
pub record PutBeside {W : Type 0} (from to : Contents W) (r : Reader W) (key : Bytes) (w w' : W)
    : Type 0 where
  pub stored : Stored to r key w w'
  pub calm : Unchanged from w stored.at
  pub after : Unchanged from w w'

-- An opened reader of the source, which leaves the destination alone.
pub record OpenedBeside {W : Type 0} (from to : Contents W) (key : Bytes) (rc : ReadCloser W)
    (w v : W) : Type 0 where
  pub reads : Opened from key v rc
  pub keeps : Keeps to rc.read
  pub closes : (u : W) → Unchanged to u (rc.close u)
  pub calm_from : Unchanged from w v
  pub calm_to : Unchanged to w v

-- Two stores that share nothing: a reader of the first gives what the key holds, a Put to the second
-- that succeeds has stored what its reader gave, and neither touches the other's contents. That goes
-- for valid keys, different ones of which are different files.
pub record Beside {W : Type 0} (IsValid : Bytes → Type 0) (from to : Contents W) (ctx : Context W)
    (src dst : Fs W) : Type 0 where
  pub apart : native_copier src dst ≡ none
  pub on_get :
      (key : Bytes) (rc : ReadCloser W) (w v : W)
      → IsValid key
      → src.get ctx key w ≡ (ok rc, v)
      → OpenedBeside from to key rc w v
  pub on_put :
      (key : Bytes) (r : Reader W) (opts : List PutOption) (w w' : W)
      → IsValid key
      → Keeps from r
      → Keeps to r
      → dst.put ctx key r opts w ≡ (ok tt, w')
      → PutBeside from to r key w w'

-- The second key holds what the first one held, and what there was under other keys is as it was.
pub record Copied {W : Type 0} (from to : Contents W) (src_key dst_key : Bytes) (w w' : W)
    : Type 0 where
  pub holds : to w' dst_key ≡ from w src_key
  pub found : from w src_key ≢ none
  pub others : (q c : Bytes) → q ≢ dst_key → to w q ≡ some c → to w' q ≡ some c
  pub source : Unchanged from w w'

-- If Copy of a valid key to a valid key, between two stores that share nothing, succeeds, the key of
-- the destination holds what the key of the source holds, which the source did hold. All else that
-- the destination held is as it was, and so is the source.
pub copy-Copied :
    {W : Type 0} (IsValid : Bytes → Type 0) (from to : Contents W) (ctx : Context W)
    (src dst : Fs W)
    → Beside IsValid from to ctx src dst
    → (src_key dst_key : Bytes) (opts : List PutOption) (w w' : W) → IsValid src_key
    → IsValid dst_key
    → copy ctx src src_key dst dst_key opts w ≡ (ok tt, w')
    → Copied from to src_key dst_key w w'
copy-Copied {W} IsValid from to ctx src dst beside src_key dst_key opts w w' src_valid dst_valid
      done =
    let wrap_get = wrap "copy: get %q: %w" (src_key ∷ []) in
    let put_from = λ (rc : ReadCloser W). deferred rc.close (dst.put ctx dst_key rc.read opts) in
    let plain = copy-transfer ctx src dst src_key dst_key opts beside.apart in
    let (rc, v, got, h) =
      bind-eq-ok (map_error wrap_get (src.get ctx src_key)) put_from w
        (ap (λ m. m w) (sym plain) ∙ done) in
    let (u, put, closed) = deferred-eq rc.close (dst.put ctx dst_key rc.read opts) v h in
    let o =
      beside.on_get src_key rc w v src_valid
        (map_error-eq-ok wrap_get (src.get ctx src_key) w got) in
    let p = beside.on_put dst_key rc.read opts v u dst_valid o.reads.keeps o.keeps put in
    let s = p.stored in
    let held : from w src_key ≡ some s.bytes =
      sym (o.calm_from src_key) ∙ o.reads.reads s.at s.bytes (p.calm src_key) s.given in
    let closed_to : Unchanged to u w' = λ q. ap (λ x. to x q) closed ∙ o.closes u q in
    record {
      holds = closed_to dst_key ∙ s.holds ∙ sym held;
      found = λ missing. cc;
      others = λ q c ne there. closed_to q ∙ s.others q c ne (o.calm_to q ∙ there);
      source = λ q. ap (λ x. from x q) closed ∙ o.reads.closes u q ∙ p.after q ∙ o.calm_from q;
    }
