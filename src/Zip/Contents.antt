-- ===== src/Zip/Contents.antt =====
-- What Unpack puts into the destination.
use mathlib.Core.List.{append_cancel_left}
use vire_fs.Base.{
  Bool, true, false, not, ◌&&◌, Option, none, some, List, [], ◌∷◌, if◌then◌else◌, Bool-cases,
  Option-cases, ◌⊎◌, inl, inr, ◌≡◌, ◌≢◌, All, refl, ap, sym, ◌∙◌,
}
use vire_fs.Bytes.{Bytes, equal, equal_iff, is_empty, slash}
use vire_fs.Errors.{ok, Result-cases}
use vire_fs.Effect.{Action, Context, ◌>>◌, check, deferred, deferred-eq, bind-eq-ok, check-eq-ok}
use vire_fs.Fs.{Fs, Reader, ReadCloser, PutOption}
use vire_fs.Fs.Contents.{Contents, Unchanged, Keeps, Stored}
use vire_fs.Key.{clean_key}
use vire_fs.Key.Laws.{clean_key-IsKey}
use vire_fs.Zip.{ZipFile, below}
use vire_fs.Zip.Archive.{extract, extract_file, unpack_files, unpack}
use vire_fs.Zip.Confined.{Below}
use vire_fs.Zip.Index.{or_else, is_named}

-- The entry is a file that Unpack writes at the key.
abbrev pub writes : {W : Type 0} → Bytes → ZipFile W → Bool
writes k f = not f.is_dir && is_named k (clean_key f.name)

abbrev pub last_file : {W : Type 0} → Bytes → List (ZipFile W) → Option (ZipFile W)
last_file k [] = none
last_file k (f ∷ files) = or_else (last_file k files) (if writes k f then some f else none)

below-injective : (p a b : Bytes) → below p a ≡ below p b → a ≡ b
below-injective p a b h = elim (Bool-cases (is_empty p)) [
  | inl empty ↦ rw empty at h
  | inr proper ↦
      let same : slash ∷ a ≡ slash ∷ b =
        append_cancel_left p (slash ∷ a) (slash ∷ b) (rw proper at h) in
      cc
]

pub last_file-none :
    {W : Type 0} (k : Bytes) (f : ZipFile W) (files : List (ZipFile W))
    → last_file k (f ∷ files) ≡ none
    → (last_file k files ≡ none) × (writes k f ≡ false)
last_file-none k f files h = elim (Option-cases (last_file k files)) [
  | inr (g, later) ↦ cc (rw later at h)
  | inl never ↦ elim (Bool-cases (writes k f)) [
    | inl it ↦ cc (rw (never, it) at h)
    | inr other ↦ (never, other)
  ]
]

-- An open entry gives its data, and leaves the destination alone.
pub record Gives {W : Type 0} (to : Contents W) (b : Bytes) (w v : W) (rc : ReadCloser W)
    : Type 0 where
  pub calm : Unchanged to w v
  pub reads : (u : W) (c : Bytes) → (rc.read u).0 ≡ (c, none) → c ≡ b
  pub keeps : Keeps to rc.read
  pub closes : (u : W) → Unchanged to u (rc.close u)

-- What opening the entry gives.
abbrev pub Opens : {W : Type 0} → Contents W → (ZipFile W → Bytes) → ZipFile W → Type 0
Opens {W} to data_of f =
    (rc : ReadCloser W) (w v : W) → f.open_file w ≡ (ok rc, v) → Gives to (data_of f) w v rc

-- A destination whose Put, below the prefix, stores what its reader gives.
abbrev pub PutsBelow :
    {W : Type 0} → Contents W → Context W → Fs W → List PutOption → Bytes → Type 0
PutsBelow {W} to ctx dst opts p =
    (key : Bytes) (r : Reader W) (w v : W)
    → Below p key
    → Keeps to r
    → dst.put ctx key r opts w ≡ (ok tt, v)
    → Stored to r key w v

module _ {W : Type 0} (to : Contents W) (data_of : ZipFile W → Bytes) (ctx : Context W) (dst : Fs W)
    (opts : List PutOption) (p : Bytes) (puts : PutsBelow to ctx dst opts p) where
  abbrev Holding : Bytes → W → W → Type 0
  Holding key w v = (q c : Bytes) → q ≢ key → to w q ≡ some c → to v q ≡ some c

  extract-Holding :
      (key : Bytes) (f : ZipFile W) (w v : W)
      → Opens to data_of f
      → Below p key
      → extract ctx dst opts key f w ≡ (ok tt, v)
      → (to v key ≡ some (data_of f)) × Holding key w v
  extract-Holding key f w v opens at h =
      let put_from = λ (rc : ReadCloser W). deferred rc.close (dst.put ctx key rc.read opts) in
      let (rc, u, opened, h') = bind-eq-ok f.open_file put_from w h in
      let g = opens rc w u opened in
      let (t, put, closed) = deferred-eq rc.close (dst.put ctx key rc.read opts) u h' in
      let s = puts key rc.read u t at g.keeps put in
      let after : Unchanged to t v = λ q. ap (λ x. to x q) closed ∙ g.closes t q in
      (
        after key ∙ s.holds ∙ ap some (g.reads s.at s.bytes s.given),
        λ q c ne there. after q ∙ s.others q c ne (g.calm q ∙ there),
      )

  -- What one round of the loop does, if it succeeds.
  abbrev Round : ZipFile W → W → W → Type 0
  Round f w v =
      (((k : Bytes) → writes k f ≡ false) × (w ≡ v))
      ⊎ ((name : Bytes) × ((k : Bytes) → writes k f ≡ equal k name)
          × (to v (below p name) ≡ some (data_of f))
          × Holding (below p name) w v)

  extract_file-Round :
      (f : ZipFile W) (w v : W)
      → Opens to data_of f
      → extract_file ctx dst opts p f w ≡ (ok tt, v)
      → Round f w v
  extract_file-Round f w v opens h = elim (Bool-cases f.is_dir) [
    | inl dir ↦ inl (λ k. rw dir refl, ap (λ x. x.1) (rw dir at h))
    | inr file ↦ elim (Result-cases (clean_key f.name)) [
      | inr (e, bad) ↦ inl (λ k. rw (file, bad) refl, ap (λ x. x.1) (rw (file, bad) at h))
      | inl (name, good) ↦ elim (Bool-cases (is_empty name)) [
        | inl empty ↦
            inl (λ k. rw (file, good, empty) refl, ap (λ x. x.1) (rw (file, good, empty) at h))
        | inr proper ↦
            let (holds, others) =
              extract-Holding (below p name) f w v opens
                (record {
                  name = name;
                  joined = refl;
                  normal = clean_key-IsKey f.name good;
                  not_empty = proper;
                })
                (rw (file, good, proper) at h) in
            inr (name, λ k. rw (file, good, proper) refl, holds, others)
      ]
    ]
  ]

  -- The loop, in its first round and the rest.
  unpack_files-eq-ok :
      (f : ZipFile W) (files : List (ZipFile W)) (w v : W)
      → Opens to data_of f
      → unpack_files ctx dst opts p (f ∷ files) w ≡ (ok tt, v)
      → (u : W) × Round f w u × (unpack_files ctx dst opts p files u ≡ (ok tt, v))
  unfolding unpack_files
  unpack_files-eq-ok f files w v opens h =
      let (_, t, alive, h') =
        bind-eq-ok (check ctx)
          (λ _. extract_file ctx dst opts p f >> unpack_files ctx dst opts p files) w h in
      let (_, u, done, h'') =
        bind-eq-ok (extract_file ctx dst opts p f) (λ _. unpack_files ctx dst opts p files) t h' in
      let same = check-eq-ok ctx w t alive in
      (u, extract_file-Round f w u opens (ap (extract_file ctx dst opts p f) same ∙ done), h'')

  Round-keeps :
      (k : Bytes) (f : ZipFile W) (w u : W) {c : Bytes}
      → writes k f ≡ false
      → Round f w u
      → to w (below p k) ≡ some c
      → to u (below p k) ≡ some c
  Round-keeps k f w u {c} other (inl (_, same)) there =
      ap (λ x. to x (below p k)) (sym same) ∙ there
  Round-keeps k f w u {c} other (inr (name, at, holds, others)) there =
      others (below p k) c
        (λ same.
          let e = (equal_iff k name).1 (below-injective p k name same) in cc (sym other ∙ at k, e))
        there

  Round-writes :
      (k : Bytes) (f : ZipFile W) (w u : W)
      → writes k f ≡ true
      → Round f w u
      → to u (below p k) ≡ some (data_of f)
  Round-writes k f w u it (inl (never, _)) = cc (never k)
  Round-writes k f w u it (inr (name, at, holds, others)) =
      ap (λ n. to u (below p n)) ((equal_iff k name).0 (sym (at k) ∙ it)) ∙ holds

  -- What is there, and not written, stays.
  unpack_files-keeps :
      (k : Bytes) (files : List (ZipFile W)) (w v : W) {c : Bytes}
      → All (Opens to data_of) files
      → last_file k files ≡ none
      → unpack_files ctx dst opts p files w ≡ (ok tt, v)
      → to w (below p k) ≡ some c
      → to v (below p k) ≡ some c
  unfolding unpack_files
  unpack_files-keeps k [] w v _ never h there = ap (λ x. to x.1 (below p k)) (sym h) ∙ there
  unpack_files-keeps k (f ∷ files) w v (opens, more) never h there =
      let (u, round, h') = unpack_files-eq-ok f files w v opens h in
      let (later, now) = last_file-none k f files never in
      unpack_files-keeps k files u v more later h' (Round-keeps k f w u now round there)

  unpack_files-last_file :
      (k : Bytes) (files : List (ZipFile W)) (w v : W) {f : ZipFile W}
      → All (Opens to data_of) files
      → last_file k files ≡ some f
      → unpack_files ctx dst opts p files w ≡ (ok tt, v)
      → to v (below p k) ≡ some (data_of f)
  unpack_files-last_file k [] w v _ is h = cc
  unpack_files-last_file k (g ∷ files) w v {f} (opens, more) is h =
      let (u, round, h') = unpack_files-eq-ok g files w v opens h in
      elim (Option-cases (last_file k files)) [
        | inr (f', later) ↦ unpack_files-last_file k files u v more (later ∙ cc (rw later at is)) h'
        | inl never ↦ elim (Bool-cases (writes k g)) [
          | inr other ↦ cc (rw (never, other) at is)
          | inl it ↦
              let same : g ≡ f = cc (rw (never, it) at is) in
              unpack_files-keeps k files u v more never h'
                (Round-writes k g w u it round ∙ ap (λ x. some (data_of x)) same)
        ]
      ]

-- If Unpack succeeds, the destination holds under the prefix what the archive holds: at each key the
-- data of the last file whose name is cleaned to it.
pub unpack-last_file :
    {W : Type 0} (to : Contents W) (data_of : ZipFile W → Bytes) (ctx : Context W) (dst : Fs W)
    (opts : List PutOption) (new_reader : Action W (List (ZipFile W))) (prefix : Bytes) {p : Bytes}
    (files : List (ZipFile W)) (w u v : W) (k : Bytes) {f : ZipFile W}
    → PutsBelow to ctx dst opts p
    → All (Opens to data_of) files
    → clean_key prefix ≡ ok p
    → new_reader w ≡ (ok files, u)
    → last_file k files ≡ some f
    → unpack ctx dst opts new_reader prefix w ≡ (ok tt, v)
    → to v (below p k) ≡ some (data_of f)
unfolding unpack
unpack-last_file to data_of ctx dst opts new_reader prefix {p} files w u v k puts opens clean read
      is done =
    unpack_files-last_file to data_of ctx dst opts p puts k files u v opens is
      (rw (read, clean) at done)
