-- ===== src/Fs/Readers.antt =====
-- The readers that a store has open.
use vire_fs.Base.{ℕ, suc, some, List, [], ◌∷◌, ◌≡◌, refl, ap, ◌∙◌, Option-cases, inl, inr}
use vire_fs.Bytes.{Bytes}
use vire_fs.Errors.{Error, wrap, Result, ok, err}
use vire_fs.Effect.{Action, Context, ◌>>=◌, map_error, map_error-eq-ok, map_error-eq-err, deferred}
use vire_fs.Fs.{Fs, Reader, ReadCloser, PutOption, Copier, native_copier, copy}
use vire_fs.Fs.Transfer.{copy-native, copy-transfer, native_copier-eq}

module _ {W : Type 0} (readers : W → ℕ) where
  -- What opens a reader: one more is open if it succeeds, and no more if it fails. Reading keeps it
  -- open, and its Close closes it.
  pub record Opens (open_reader : Action W (ReadCloser W)) : Type 0 where
    pub on_open :
        (rc : ReadCloser W) (w v : W) → open_reader w ≡ (ok rc, v) → readers v ≡ suc (readers w)
    pub open_fails : (e : Error) (w v : W) → open_reader w ≡ (err e, v) → readers v ≡ readers w
    pub on_read :
        (rc : ReadCloser W) (w v u : W)
        → open_reader w ≡ (ok rc, v)
        → readers (rc.read u).1 ≡ readers u
    pub on_close :
        (rc : ReadCloser W) (w v u : W) (n : ℕ)
        → open_reader w ≡ (ok rc, v)
        → readers u ≡ suc n
        → readers (rc.close u) ≡ n

  abbrev pub Steady : {A : Type 0} → Action W A → Type 0
  Steady m = (w : W) → readers (m w).1 ≡ readers w

  -- A reader that is opened for a step, and closed behind it, is closed however the step ends.
  pub open-deferred :
      {A : Type 0} (open_reader : Action W (ReadCloser W)) (body : ReadCloser W → Action W A)
      → Opens open_reader
      → ((rc : ReadCloser W) (w v : W) → open_reader w ≡ (ok rc, v) → Steady (body rc))
      → Steady (open_reader >>= λ rc. deferred rc.close (body rc))
  open-deferred {A} open_reader body opens steady w = by_open (open_reader w) refl
    where
      by_open :
          (x : Result (ReadCloser W) × W)
          → open_reader w ≡ x
          → readers ((open_reader >>= λ rc. deferred rc.close (body rc)) w).1 ≡ readers w
      by_open (ok rc, v) e = rw e (
          opens.on_close rc w v (body rc v).1 (readers w) e
            (steady rc w v e v ∙ opens.on_open rc w v e))
      by_open (err d, v) e = rw e (opens.open_fails d w v e)

  -- Wrapping the error of opening changes nothing of that.
  pub map_error-Opens :
      (g : Error → Error) (open_reader : Action W (ReadCloser W))
      → Opens open_reader
      → Opens (map_error g open_reader)
  map_error-Opens g open_reader opens = record {
    on_open = λ rc w v h. opens.on_open rc w v (map_error-eq-ok g open_reader w h);
    open_fails = λ e w v h.
        let (d, failed, _) = map_error-eq-err g open_reader w h in opens.open_fails d w v failed;
    on_read = λ rc w v u h. opens.on_read rc w v u (map_error-eq-ok g open_reader w h);
    on_close = λ rc w v u n h. opens.on_close rc w v u n (map_error-eq-ok g open_reader w h);
  }

  -- A Put, or a copy of a store's own, leaves no reader open and closes none, if reading does not.
  abbrev pub PutsSteady : Context W → Fs W → Type 0
  PutsSteady ctx dst =
      (key : Bytes) (r : Reader W) (opts : List PutOption)
      → ((u : W) → readers (r u).1 ≡ readers u)
      → Steady (dst.put ctx key r opts)

  pub record CopiesReaders (ctx : Context W) (src dst : Fs W) : Type 0 where
    pub on_get : (key : Bytes) → Opens (src.get ctx key)
    pub on_put : PutsSteady ctx dst
    pub on_copy :
        (native : Copier W) (src_key dst_key : Bytes)
        → src.copier ≡ some native
        → Steady (native ctx src_key dst_key)

  -- However Copy ends, it leaves as many readers open as there were.
  pub copy-Steady :
      (ctx : Context W) (src dst : Fs W) (src_key dst_key : Bytes) (opts : List PutOption)
      → CopiesReaders ctx src dst
      → Steady (copy ctx src src_key dst dst_key opts)
  copy-Steady ctx src dst src_key dst_key opts c w = elim (Option-cases (native_copier src dst)) [
    | inr (native, own) ↦
        ap (λ m. readers (m w).1) (copy-native ctx src dst src_key dst_key opts own)
        ∙ c.on_copy native src_key dst_key (native_copier-eq src dst own).1 w
    | inl plain ↦
        let wrap_get = wrap "copy: get %q: %w" (src_key ∷ []) in
        let opens = map_error-Opens wrap_get (src.get ctx src_key) (c.on_get src_key) in
        ap (λ m. readers (m w).1) (copy-transfer ctx src dst src_key dst_key opts plain)
        ∙ open-deferred (map_error wrap_get (src.get ctx src_key))
            (λ rc. dst.put ctx dst_key rc.read opts) opens
            (λ rc v x got. c.on_put dst_key rc.read opts (λ u. opens.on_read rc v x u got)) w
  ]
