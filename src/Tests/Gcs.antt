-- ===== src/Tests/Gcs.antt =====
-- A bucket whose server is busy at first and answers in pages of one name.
use shcr.Base.{
  ℕ, suc, ◌+◌, true, false, Option, none, some, List, [], ◌∷◌, if◌then◌else◌, ◌==◌, ◌≡◌, refl,
  arith,
}
use shcr.Base.Bytes.{Bytes, codes, bytes_eq, bytes_lt, has_prefix}
use shcr.Store.Queries.{filter}
use shcr.Store.Candidates.{trim_slash}
use shcr.Sync.Files.{behind}
use shcr.Sync.Pull.{Fetched}
use shcr.Sync.Gcs.{
  Request, fetch, upload, listing, Response, World, Page, retryable, check_key, trim_prefix,
  trim_slashes_left, trim_slashes_right, normalise_prefix, send_from, send_request, gcs_get,
  gcs_put, fetch_page, each_page, behind_page, list_query, gcs_list, child_names, gcs_children,
}
use shcr.Sync.Gcs.Names.{all_items, keys_below}
use shcr.Sync.Gcs.Listing.{Answers, more_pages, last_page, gcs_list-keys_below}

abbrev first : Page
first = record {
  items = codes "r/devices/b/1" ∷ [];
  prefixes = codes "r/devices/a/" ∷ [];
  next_page_token = codes "t";
}

abbrev second_page : Page
second_page = record {
  items = codes "r/devices/b/2" ∷ [];
  prefixes = codes "r/devices/b/" ∷ [];
  next_page_token = [];
}

abbrev names : List Bytes
names = codes "q" ∷ codes "r/devices/a/9" ∷ codes "r/devices/b/1" ∷ codes "r/devices/b/2" ∷ []

abbrev page_of : Option Bytes → Bytes
page_of none = codes "1"
page_of (some token) = codes "2"

abbrev answer_of : Request → Response
answer_of (fetch name) = record {
  status = if bytes_eq name (codes "r/k") then 200 else 404;
  body = codes "v";
}
answer_of (upload name content) = record { status = 201; body = [] }
answer_of (listing query) = record { status = 200; body = page_of query.page_token }

-- The state is how many requests there were, the first of which is refused, and what was slept.
abbrev busy : World (ℕ × ℕ)
busy = record {
  answer = λ w request. (
    (suc w.0, w.1),
    some (if w.0 == 0 then record { status = 503; body = [] } else answer_of request),
  );
  is_cancelled = λ w. false;
  sleep = λ w ms. (w.0, w.1 + ms);
}

abbrev read : Bytes → Option Page
read body = some (if bytes_eq body (codes "1") then first else second_page)

abbrev down : World (ℕ × ℕ)
down = record {
  answer = λ w request. ((suc w.0, w.1), some (record { status = 503; body = [] }));
  is_cancelled = λ w. false;
  sleep = λ w ms. (w.0, w.1 + ms);
}

-- Six attempts, with 7.75 seconds between them.
gives_up : send_request down read (fetch (codes "k")) (0, 0) ≡ ((6, 7750), none)
unfolding send_request send_from retryable
gives_up = refl

got : gcs_get busy read (codes "r/") (codes "k") (0, 0) ≡ ((2, 250), Fetched.found (codes "v"))
unfolding gcs_get check_key send_request send_from retryable bytes_eq has_prefix
got = refl

missing : gcs_get busy read (codes "r/") (codes "l") (0, 0) ≡ ((2, 250), Fetched.not_exist)
unfolding gcs_get check_key send_request send_from retryable bytes_eq has_prefix
missing = refl

put_up : gcs_put busy read (codes "r/") (codes "k") (codes "w") (0, 0) ≡ ((2, 250), true)
unfolding gcs_put check_key send_request send_from retryable bytes_eq has_prefix
put_up = refl

devices :
    (gcs_children busy read (codes "r/") 2 (codes "devices/") (0, 0)).1
    ≡ some (codes "a" ∷ codes "b" ∷ [])
unfolding gcs_children each_page fetch_page behind_page child_names send_request send_from retryable
    trim_prefix trim_slash behind filter has_prefix bytes_eq
devices = refl

folder : normalise_prefix (codes "/a/b//") ≡ codes "a/b/"
unfolding normalise_prefix trim_slashes_left trim_slashes_right
folder = refl

answered :
    Answers busy read
      (0, 0)
      (list_query (codes "r/") (codes "devices/b/") (codes "devices/b/1"))
      (first ∷ second_page ∷ [])
unfolding fetch_page send_request send_from retryable list_query bytes_eq
answered =
    more_pages (0, 0) (2, 250) _ first (second_page ∷ []) refl refl
      (last_page (2, 250) (3, 250) _ second_page refl refl)

gcs_list-keys_below_example :
    (gcs_list busy read (codes "r/") 2 (codes "devices/b/") (codes "devices/b/1") (0, 0)).1
    ≡ some (codes "devices/b/2" ∷ [])
unfolding all_items filter list_query has_prefix bytes_lt keys_below behind
gcs_list-keys_below_example =
    gcs_list-keys_below busy read (codes "r/") (codes "devices/b/") (codes "devices/b/1") names
      (first ∷ second_page ∷ []) 2 (0, 0) answered refl (omega arith)
