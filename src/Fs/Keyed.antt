-- ===== src/Fs/Keyed.antt =====
-- What a store holds under its clean keys, where each lies at a path of its own in what it is built
-- on: files of a disk, objects of a bucket.
use vire_fs.Base.{
  Bool, true, false, none, ◌≡◌, ◌≢◌, refl, ap, sym, ◌∙◌, if◌then◌else◌, Bool-cases, inl, inr,
}
use vire_fs.Bytes.{Bytes, equal, equal_iff}
use vire_fs.Errors.{Result, ok, err}
use vire_fs.Key.{clean_key}
use vire_fs.Key.Laws.{IsKey, clean_key-IsKey, clean_key_of_IsKey}
use vire_fs.Fs.{Reader, ReadCloser}
use vire_fs.Fs.Contents.{Contents, Unchanged, UnchangedBut, Opened, Stored}

-- The key is as CleanKey gives it.
abbrev is_key : Bytes → Result Bytes → Bool
is_key key (err e) = false
is_key key (ok cleaned) = equal cleaned key

-- There is nothing under any other key.
abbrev pub keyed : {W : Type 0} → Contents W → (Bytes → Bytes) → Contents W
keyed content path w key = if is_key key (clean_key key) then content w (path key) else none

-- Different keys lie at different paths.
abbrev pub Apart : (Bytes → Bytes) → Type 0
Apart path = (key q : Bytes) → IsKey key → IsKey q → path q ≡ path key → q ≡ key

is_key-true : (key : Bytes) → IsKey key → is_key key (clean_key key) ≡ true
is_key-true key k = rw (clean_key_of_IsKey k) ((equal_iff key key).1 refl)

is_key-IsKey : (key : Bytes) → is_key key (clean_key key) ≡ true → IsKey key
is_key-IsKey key h = by_result (clean_key key) refl h
  where
    by_result : (r : Result Bytes) → clean_key key ≡ r → is_key key r ≡ true → IsKey key
    by_result (ok c) e h' = clean_key-IsKey key (e ∙ ap ok ((equal_iff c key).0 h'))
    by_result (err d) e h' = cc

module _ {W : Type 0} (content : Contents W) (path : Bytes → Bytes) where
  abbrev held : Contents W
  held = keyed content path

  pub held_of_key : (key : Bytes) (w : W) → IsKey key → held w key ≡ content w (path key)
  held_of_key key w k = rw (is_key-true key k)

  -- A statement on what is held holds if it holds at the paths of clean keys.
  held-cases :
      (q : Bytes) (w v : W)
      → (IsKey q → content v (path q) ≡ content w (path q))
      → held v q ≡ held w q
  held-cases q w v h = elim (Bool-cases (is_key q (clean_key q))) [
    | inl key ↦ rw key (h (is_key-IsKey q key))
    | inr other ↦ rw other
  ]

  pub held-Unchanged : (w v : W) → Unchanged content w v → Unchanged held w v
  held-Unchanged w v calm q = held-cases q w v (λ _. calm (path q))

  pub held-Opened :
      (key : Bytes) (v : W) (rc : ReadCloser W)
      → IsKey key
      → Opened content (path key) v rc
      → Opened held key v rc
  held-Opened key v rc k from = record {
    reads = λ w b same e.
        held_of_key key v k
        ∙ from.reads w b (sym (held_of_key key w k) ∙ same ∙ held_of_key key v k) e;
    keeps = λ w. held-Unchanged w (rc.read w).1 (from.keeps w);
    closes = λ w. held-Unchanged w (rc.close w) (from.closes w);
  }

  module _ (apart : Apart path) where
    pub held-UnchangedBut :
        (key : Bytes) (w v : W)
        → IsKey key
        → UnchangedBut content (path key) w v
        → UnchangedBut held key w v
    held-UnchangedBut key w v k calm q ne =
        held-cases q w v (λ k'. calm (path q) (λ same. ne (apart key q k k' same)))

    pub held-Stored :
        (key : Bytes) (r : Reader W) (w v : W)
        → IsKey key
        → Stored content r (path key) w v
        → Stored held r key w v
    held-Stored key r w v k s = record {
      at = s.at;
      bytes = s.bytes;
      given = s.given;
      holds = held_of_key key v k ∙ s.holds;
      others = λ q c ne there. elim (Bool-cases (is_key q (clean_key q))) [
        | inr other ↦ cc (rw other at there)
        | inl is ↦ rw is (
            s.others (path q) c (λ same. ne (apart key q k (is_key-IsKey q is) same))
              (rw is at there))
      ];
    }

    -- A copy from path to path is one from key to key.
    pub held-copied :
        (src_key dst_key : Bytes) (w v : W)
        → IsKey src_key
        → IsKey dst_key
        → content v (path dst_key) ≡ content w (path src_key)
        → UnchangedBut content (path dst_key) w v
        → content w (path src_key) ≢ none
        → (held v dst_key ≡ held w src_key)
          × UnchangedBut held dst_key w v
          × (held w src_key ≢ none)
    held-copied src_key dst_key w v k k' same others found = (
      held_of_key dst_key v k' ∙ same ∙ sym (held_of_key src_key w k),
      held-UnchangedBut dst_key w v k' others,
      λ missing. found (sym (held_of_key src_key w k) ∙ missing),
    )
