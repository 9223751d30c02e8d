-- ===== src/Object/Pages.antt =====
-- List gives the entries of all pages, in the order of the pages.
use vire_fs.Base.{
  ℕ, zero, suc, true, false, Option, none, List, [], ◌++◌, append_assoc, Option-cases, Bool-cases,
  inl, inr, ◌∷◌, sym, subst, ◌↔◌, ◌≡◌, refl, ap, ◌∙◌,
}
use vire_fs.Bytes.{Bytes, slash}
use vire_fs.Errors.{Result, ok, err}
use vire_fs.Effect.{Context, ◌>>=◌}
use vire_fs.Fs.{FileInfo}
use vire_fs.Key.{clean_key}
use vire_fs.Object.{Aws, ObjectFs, ListObjectsOutput, report}
use vire_fs.Object.Entries.{Slashed, Page, Page-eq, page_files-Page, s3_prefix-eq}
use vire_fs.Object.Listing.{
  Listing, complete, unfinished, s3_prefix, page_files, page_input, after_page, list_pages, list,
}

module _ (aws : Aws) {W : Type 0} (o : ObjectFs W) (ctx : Context W) where
  -- From a continuation token on, the client, asked for what is below a prefix up to the next slash,
  -- gives a last page after at most as many as the number says, the context lives before each of
  -- them, and their entries are the list.
  pub data Listed (p : Bytes) : ℕ → W → Option Bytes → List FileInfo → W → Type 0 where
    last_page :
        {n : ℕ} {w w' : W} {token : Option Bytes} {out : ListObjectsOutput} {files : List FileInfo}
        → ctx w ≡ none
        → o.client.list_objects ctx
            (record {
              bucket = o.bucket;
              prefix = p;
              delimiter = slash ∷ [];
              continuation_token = token;
            })
            w
          ≡ (ok out, w')
        → aws.to_bool out.is_truncated ≡ false
        → Page aws o out.contents out.common_prefixes files
        → Listed p (suc n) w token files w'
    more_pages :
        {n : ℕ} {w v w' : W} {token : Option Bytes} {out : ListObjectsOutput}
        {files later : List FileInfo}
        → ctx w ≡ none
        → o.client.list_objects ctx
            (record {
              bucket = o.bucket;
              prefix = p;
              delimiter = slash ∷ [];
              continuation_token = token;
            })
            w
          ≡ (ok out, v)
        → aws.to_bool out.is_truncated ≡ true
        → Listed p n v out.next_continuation_token later w'
        → Page aws o out.contents out.common_prefixes files
        → Listed p (suc n) w token (files ++ later) w'

  module _ (prefix p : Bytes) where
    list_pages_of_Listed :
        {n : ℕ} {w w' : W} {token : Option Bytes} {files : List FileInfo} (before : List FileInfo)
        → Listed p n w token files w'
        → list_pages aws o ctx prefix p n token before w ≡ (ok (complete (before ++ files)), w')
    unfolding list_pages
    list_pages_of_Listed before (last_page {out} alive page last e) =
        rw (alive, page, last, Page-eq aws o out e) refl
    list_pages_of_Listed before (more_pages {w' = end} {out} alive page more later e) =
        rw (alive, page, more, Page-eq aws o out e)
          (list_pages_of_Listed _ later
            ∙ ap (λ l. (ok (complete l), end)) (append_assoc before _ _))

    -- A complete listing has the entries of the pages from here on, behind the earlier ones.
    abbrev Gives : ℕ → W → Option Bytes → List FileInfo → Result Listing × W → Type 0
    Gives n w token before (ok (complete all), w') =
        (files : List FileInfo) × (all ≡ before ++ files) × Listed p n w token files w'
    Gives n w token before (ok unfinished, w') = Unit
    Gives n w token before (err e, w') = Unit

    Gives-more :
        (n : ℕ) {w v : W} {token : Option Bytes} {out : ListObjectsOutput} (before : List FileInfo)
        (r : Result Listing × W)
        → ctx w ≡ none
        → o.client.list_objects ctx (page_input o p token) w ≡ (ok out, v)
        → aws.to_bool out.is_truncated ≡ true
        → Gives n v out.next_continuation_token (before ++ page_files aws o out) r
        → Gives (suc n) w token before r
    Gives-more n {out = out} before (ok (complete all), w') alive page more (later, e, h) =
        (_, e ∙ append_assoc before _ _, more_pages alive page more h (page_files-Page aws o out))
    Gives-more n before (ok unfinished, w') alive page more h = tt
    Gives-more n before (err e, w') alive page more h = tt

    Gives-page :
        (n : ℕ) {w : W} {token : Option Bytes} (before : List FileInfo)
        (r : Result ListObjectsOutput × W)
        → ctx w ≡ none
        → o.client.list_objects ctx (page_input o p token) w ≡ r
        → ((v : W) (t : Option Bytes) (b : List FileInfo)
            → Gives n v t b (list_pages aws o ctx prefix p n t b v))
        → Gives (suc n) w token before (
            (report aws "List" prefix (λ _. r)
                >>= after_page aws o (list_pages aws o ctx prefix p n) before)
              w)
    Gives-page n before (err e, v) alive page later = tt
    Gives-page n before (ok out, v) alive page later =
        elim (Bool-cases (aws.to_bool out.is_truncated)) [
          | inl more ↦ rw more (Gives-more n before _ alive page more (later v _ _))
          | inr last ↦ rw last (_, refl, last_page alive page last (page_files-Page aws o out))
        ]

    list_pages-Gives :
        (n : ℕ) (w : W) (token : Option Bytes) (before : List FileInfo)
        → Gives n w token before (list_pages aws o ctx prefix p n token before w)
    unfolding list_pages
    list_pages-Gives zero w token before = tt
    list_pages-Gives (suc n) w token before = elim (Option-cases (ctx w)) [
      | inl alive ↦ rw alive (Gives-page n before _ alive refl (λ v t b. list_pages-Gives n v t b))
      | inr (e, dead) ↦ rw dead tt
    ]

    list_pages-ok_iff :
        {n : ℕ} {w w' : W} {files : List FileInfo}
        → (list_pages aws o ctx prefix p n none [] w ≡ (ok (complete files), w'))
          ↔ Listed p n w none files w'
    list_pages-ok_iff {n} {w} {w'} {files} = (
      λ e. let (later, q, h) = rw e at (list_pages-Gives n w none []) in rw q h,
      list_pages_of_Listed [],
    )

  -- With a valid prefix, `n` pages are enough for List exactly when the client gives a last page
  -- among the first `n`, of what is below the base prefix and the cleaned one, with a live context
  -- before each; and then the result is the entries of all pages in their order. Those are a file
  -- for each object and a directory for each common prefix, without the base prefix.
  pub list-ok_iff :
      (n : ℕ) (prefix : Bytes) {cleaned p : Bytes} (w w' : W) (files : List FileInfo)
      → clean_key prefix ≡ ok cleaned
      → Slashed (o.base_prefix ++ cleaned) p
      → (list aws o n ctx prefix w ≡ (ok (complete files), w')) ↔ Listed p n w none files w'
  unfolding list
  list-ok_iff n prefix {cleaned} {p} w w' files e below =
      subst
        (λ q. (list aws o n ctx prefix w ≡ (ok (complete files), w')) ↔ Listed q n w none files w')
        (sym (s3_prefix-eq o cleaned below)) (rw e (list_pages-ok_iff prefix (s3_prefix o cleaned)))
