-- ===== src/Sync/Gcs/Listing.antt =====
-- internal/sync/gcs.go: `List` over the pages of a bucket.
use shcr.Base.{
  ℕ, zero, suc, ◌≤◌, true, false, ◌&&◌, Option, some, List, [], ◌∷◌, length, ◌≡◌, refl, ap, ◌∙◌,
  arith,
}
use shcr.Base.Bytes.{Bytes, is_empty, bytes_lt, has_prefix}
use shcr.Store.Queries.{filter}
use shcr.Sync.Gcs.{
  Query, World, Page, ListEnd, complete, fetch_page, each_page, list_query, behind_page, gcs_list,
}
use shcr.Sync.Gcs.Names.{
  is_listed, all_items, keys_below, names_of, listed_keys-all_items, filter_twice, keys_agree,
}

module _ {W : Type 0} (world : World W) (read_page : Bytes → Option Page) where
  -- A listing that the server has answered with these pages, after however many retries: each but
  -- the last names the next one by its token.
  pub data Answers : W → Query → List Page → Type 0 where
    last_page :
        (w w' : W) (query : Query) (page : Page)
        → fetch_page world read_page query w ≡ (w', some page)
        → is_empty page.next_page_token ≡ true
        → Answers w query (page ∷ [])
    more_pages :
        (w w' : W) (query : Query) (page : Page) (pages : List Page)
        → fetch_page world read_page query w ≡ (w', some page)
        → is_empty page.next_page_token ≡ false
        → Answers w' (record query { page_token = some page.next_page_token }) pages
        → Answers w query (page ∷ pages)

  abbrev following : ℕ → Query → Bytes → W → W × List Page × ListEnd
  following rounds query token w =
      each_page world read_page rounds (record query { page_token = some token }) w

  each_page-Answers :
      (rounds : ℕ) (w : W) (query : Query) (pages : List Page)
      → Answers w query pages
      → length pages ≤ rounds
      → ((each_page world read_page rounds query w).1 ≡ pages)
        × ((each_page world read_page rounds query w).2 ≡ complete)
  each_page-Answers zero w query pages (last_page _ _ _ page got ends) enough = absurd (omega arith)
  each_page-Answers zero w query pages (more_pages _ _ _ page more got goes rest) enough =
      absurd (omega arith)
  each_page-Answers (suc rounds) w query pages (last_page _ w' _ page got ends) enough =
      let step : each_page world read_page (suc rounds) query w ≡ (w', page ∷ [], complete) =
        unfold each_page behind_page in
        ap (behind_page (following rounds query)) got ∙ rw ends refl in
      (ap (λ r. r.1) step, ap (λ r. r.2) step)
  each_page-Answers (suc rounds) w query pages (more_pages _ w' _ page more got goes rest) enough =
      let next = following rounds query page.next_page_token w' in
      let behind_it = each_page-Answers rounds w' _ more rest (omega arith) in
      let step : each_page world read_page (suc rounds) query w ≡ (next.0, page ∷ next.1, next.2) =
        unfold each_page behind_page in
        ap (behind_page (following rounds query)) got ∙ rw goes refl in
      (ap (λ r. r.1) step ∙ ap (◌∷◌ page) behind_it.0, ap (λ r. r.2) step ∙ behind_it.1)

  -- `List` of a bucket, whatever the sizes of the pages and the retries: if the server answers the
  -- listing with pages that hold, in order, the names of the bucket that have the prefix and are not
  -- in front of the offset, the keys returned are those below the root that have the caller's prefix
  -- and come after the given key, in the same order. As many rounds as there are pages are enough.
  pub gcs_list-keys_below :
      (root prefix after : Bytes) (names : List Bytes) (pages : List Page) (rounds : ℕ) (w : W)
      → Answers w (list_query root prefix after) pages
      → all_items pages ≡ filter (is_listed (list_query root prefix after)) names
      → length pages ≤ rounds
      → (gcs_list world read_page root rounds prefix after w).1
        ≡ some (filter (λ key. has_prefix key prefix && bytes_lt after key) (keys_below root names))
  unfolding gcs_list
  gcs_list-keys_below root prefix after names pages rounds w answers items enough =
      let found = each_page-Answers rounds w (list_query root prefix after) pages answers enough in
      let keys =
        listed_keys-all_items root after pages
        ∙ ap (λ l. filter (bytes_lt after) (names_of root l)) items
        ∙ filter_twice root prefix after names
        ∙ keys_agree root prefix after names in
      rw (found.0, found.1) (ap some keys)
