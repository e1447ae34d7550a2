-- ===== src/Sync/Gcs.antt =====
-- internal/sync/gcs.go: a backend that is a bucket of Cloud Storage. The server and the clock are a
-- world that answers requests; a request is its method with the bucket's names, for the URL that
-- net/url makes of them. Credentials and the words of errors are not modelled.
pub mod Names
pub mod Listing
use shcr.Base.{
  ℕ, zero, suc, ◌+◌, ◌-◌, ◌*◌, ◌^◌, Bool, true, false, not, ◌&&◌, ◌||◌, Option, none, some, List,
  [], ◌∷◌, ◌++◌, map, if◌then◌else◌, ◌==◌, ltb,
}
use shcr.Base.Bytes.{Bytes, is_empty, bytes_lt, has_prefix}
use shcr.Store.Queries.{filter}
use shcr.Store.Candidates.{trim_slash}
use shcr.Sync.Keys.{slash}
use shcr.Sync.Pull.{Fetched}
use shcr.Sync.Files.{behind}

-- The parameters of a listing.
pub record Query : Type 0 where
  pub prefix : Bytes
  pub start_offset : Option Bytes
  pub delimiter : Option Bytes
  pub page_token : Option Bytes

pub data Request : Type 0 where
  fetch : Bytes → Request
  upload : Bytes → Bytes → Request
  listing : Query → Request

pub record Response : Type 0 where
  pub status : ℕ
  pub body : Bytes

-- `Do` of the client, with `none` for a connection that failed, the context, and `nap`, in
-- milliseconds.
pub record World (W : Type 0) : Type 0 where
  pub answer : W → Request → W × Option Response
  pub is_cancelled : W → Bool
  pub sleep : W → ℕ → W

-- `gcsListPage`, with the names of its items.
pub record Page : Type 0 where
  pub items : List Bytes
  pub prefixes : List Bytes
  pub next_page_token : Bytes

-- How a listing ends; `endless` stands for one that goes on behind the last round.
pub data ListEnd : Type 0 where
  complete list_error endless : ListEnd

abbrev pub retry_attempts : ℕ
retry_attempts = 6

abbrev pub retry_base : ℕ
retry_base = 250

unfoldable pub retryable : ℕ → Bool
retryable code = code == 429 || code == 500 || code == 502 || code == 503 || code == 504

unfoldable pub check_key : Bytes → Bool
check_key key = not (is_empty key || has_prefix key (slash ∷ []))

unfoldable pub trim_slashes_left : Bytes → Bytes
trim_slashes_left [] = []
trim_slashes_left (c ∷ s) = if c == slash then trim_slashes_left s else c ∷ s

unfoldable pub trim_slashes_right : Bytes → Bytes
trim_slashes_right [] = []
trim_slashes_right (c ∷ s) =
    let rest = trim_slashes_right s in if c == slash && is_empty rest then [] else c ∷ rest

unfoldable pub normalise_prefix : Bytes → Bytes
unfolding trim_slashes_left trim_slashes_right
normalise_prefix p =
    let p' = trim_slashes_right (trim_slashes_left p) in
    if is_empty p' then [] else p' ++ slash ∷ []

-- `strings.TrimPrefix`
unfoldable pub trim_prefix : Bytes → Bytes → Bytes
unfolding behind
trim_prefix s prefix = if has_prefix s prefix then behind prefix s else s

abbrev pub offset_of : Bytes → Bytes → Option Bytes
offset_of root after = if is_empty after then none else some (root ++ after)

-- The function that `List` gives to `eachPage`, over all of the pages.
unfoldable pub listed_keys : Bytes → Bytes → List Page → List Bytes
unfolding trim_prefix filter
listed_keys root after [] = []
listed_keys root after (page ∷ pages) =
    filter (bytes_lt after) (map (λ name. trim_prefix name root) page.items)
    ++ listed_keys root after pages

unfoldable pub list_query : Bytes → Bytes → Bytes → Query
list_query root prefix after = record {
  prefix = root ++ prefix;
  start_offset = offset_of root after;
  delimiter = none;
  page_token = none;
}

abbrev pub when_complete : ListEnd → List Bytes → Option (List Bytes)
when_complete complete keys = some keys
when_complete list_error keys = none
when_complete endless keys = none

-- The function that `Children` gives to `eachPage`.
unfoldable pub child_names : Bytes → List Page → List Bytes
unfolding trim_prefix trim_slash filter
child_names full [] = []
child_names full (page ∷ pages) =
    filter (λ name. not (is_empty name))
      (map (λ prefix. trim_slash (trim_prefix prefix full)) page.prefixes)
    ++ child_names full pages

-- What `eachPage` does with a page; `more` is the rest of the loop, with the token it goes on with.
unfoldable pub behind_page :
    {W : Type 0} → (Bytes → W → W × List Page × ListEnd) → W × Option Page → W × List Page × ListEnd
behind_page more (w, none) = (w, [], list_error)
behind_page more (w, some page) =
    let (w', pages, end) = more page.next_page_token w in
    if is_empty page.next_page_token then (w, page ∷ [], complete) else (w', page ∷ pages, end)

-- `read_page` is JSON.
module _ {W : Type 0} (world : World W) (read_page : Bytes → Option Page) where
  -- The loop of `send`, for the attempts that are left.
  unfoldable pub send_from : ℕ → ℕ → Request → W → W × Option Response
  unfolding retryable
  send_from zero attempt request w = (w, none)
  send_from (suc left) attempt request w =
      let waits = ltb 0 attempt in
      let w1 = if waits then world.sleep w (retry_base * 2 ^ (attempt - 1)) else w in
      let (w2, response) = world.answer w1 request in
      let again = send_from left (suc attempt) request w2 in
      if waits && world.is_cancelled w then (w, none) else elim response [
        | none ↦ if world.is_cancelled w2 then (w2, none) else again
        | some r ↦ if retryable r.status then again else (w2, some r)
      ]

  unfoldable pub send_request : Request → W → W × Option Response
  unfolding send_from
  send_request request w = send_from retry_attempts 0 request w

  -- A page of a listing, or `none` for an error.
  unfoldable pub fetch_page : Query → W → W × Option Page
  unfolding send_request
  fetch_page query w =
      let (w', response) = send_request (listing query) w in
      elim response [
        | none ↦ (w', none)
        | some r ↦ (w', if r.status == 200 then read_page r.body else none)
      ]

  -- `eachPage`: the pages that its function is given, for a number of rounds.
  unfoldable pub each_page : ℕ → Query → W → W × List Page × ListEnd
  unfolding fetch_page behind_page
  each_page zero query w = (w, [], endless)
  each_page (suc rounds) query w =
      behind_page (λ token w'. each_page rounds (record query { page_token = some token }) w')
        (fetch_page query w)

-- `g.Prefix` is `root`.
module _ {W : Type 0} (world : World W) (read_page : Bytes → Option Page) (root : Bytes) where
  unfoldable pub gcs_get : Bytes → W → W × Fetched
  unfolding check_key send_request
  gcs_get key w =
      let (w', response) = send_request world read_page (fetch (root ++ key)) w in
      if not (check_key key) then (w, Fetched.broken) else elim response [
        | none ↦ (w', Fetched.broken)
        | some r ↦
            if r.status == 404
            then (w', Fetched.not_exist)
            else if r.status == 200
            then (w', Fetched.found r.body)
            else (w', Fetched.broken)
      ]

  unfoldable pub gcs_put : Bytes → Bytes → W → W × Bool
  unfolding check_key send_request
  gcs_put key content w =
      let (w', response) = send_request world read_page (upload (root ++ key) content) w in
      if not (check_key key)
      then (w, false)
      else elim response [ none ↦ (w', false) | some r ↦ (w', r.status == 200 || r.status == 201) ]

  unfoldable pub gcs_list : ℕ → Bytes → Bytes → W → W × Option (List Bytes)
  unfolding each_page listed_keys list_query
  gcs_list rounds prefix after w =
      let (w', pages, end) = each_page world read_page rounds (list_query root prefix after) w in
      (w', when_complete end (listed_keys root after pages))

  unfoldable pub gcs_children : ℕ → Bytes → W → W × Option (List Bytes)
  unfolding each_page child_names
  gcs_children rounds prefix w =
      let full = root ++ prefix in
      let (w', pages, end) =
        each_page world read_page rounds
          (record {
            prefix = full;
            start_offset = none;
            delimiter = some (slash ∷ []);
            page_token = none;
          })
          w in
      (w', when_complete end (child_names full pages))
