-- ===== src/Library/Values.antt =====
-- The readers of the stored forms of src/library.rs.
use braird_core.Prelude.{String, none, some, ◌≡◌, refl, ◌⊎◌, arith, eq_iff}
use braird_core.Library.{
  SourceStatus, status_value, parse_status, SourceKind, kind_value, parse_kind, LibrarySort,
  sort_value, parse_sort,
}

status-parsed : (status : SourceStatus) → parse_status (some (status_value status)) ≡ status
unfolding status_value parse_status
status-parsed SourceStatus.to_read = refl
status-parsed SourceStatus.reading = refl
status-parsed SourceStatus.shelved = refl

kind-parsed : (kind : SourceKind) → parse_kind (some (kind_value kind)) ≡ kind
unfolding kind_value parse_kind
kind-parsed SourceKind.book = refl
kind-parsed SourceKind.podcast = refl
kind-parsed SourceKind.article = refl
kind-parsed SourceKind.research_paper = refl
kind-parsed SourceKind.video = refl
kind-parsed SourceKind.social = refl

sort-parsed : (sort : LibrarySort) → parse_sort (some (sort_value sort)) ≡ sort
unfolding sort_value parse_sort
sort-parsed LibrarySort.date_added = refl
sort-parsed LibrarySort.alphabetical = refl

status-known :
    (raw : String)
    → (raw ≡ status_value (parse_status (some raw)))
      ⊎ (parse_status (some raw) ≡ SourceStatus.shelved)
unfolding status_value parse_status
status-known raw = ground (arith, eq_iff raw "to_read", eq_iff raw "reading")

kind-known :
    (raw : String)
    → (raw ≡ kind_value (parse_kind (some raw))) ⊎ (parse_kind (some raw) ≡ SourceKind.book)
unfolding kind_value parse_kind
kind-known raw = ground (
  arith,
  eq_iff raw "podcast",
  eq_iff raw "article",
  eq_iff raw "research_paper",
  eq_iff raw "video",
  eq_iff raw "social",
)

sort-known :
    (raw : String)
    → (raw ≡ sort_value (parse_sort (some raw))) ⊎ (parse_sort (some raw) ≡ LibrarySort.date_added)
unfolding sort_value parse_sort
sort-known raw = ground (arith, eq_iff raw "alphabetical")

-- A status, a kind and a sort are each read back from their stored form. Any text is the stored form
-- of what it reads as, or it reads as `Shelved`, as `Book` and as `DateAdded` for the three readers,
-- and so does a value that is absent.
pub library_values-parsed :
    (status : SourceStatus) (kind : SourceKind) (sort : LibrarySort) (raw : String)
    → ((parse_status (some (status_value status)) ≡ status)
        × (parse_kind (some (kind_value kind)) ≡ kind)
        × (parse_sort (some (sort_value sort)) ≡ sort))
      × (((raw ≡ status_value (parse_status (some raw)))
            ⊎ (parse_status (some raw) ≡ SourceStatus.shelved))
          × ((raw ≡ kind_value (parse_kind (some raw))) ⊎ (parse_kind (some raw) ≡ SourceKind.book))
          × ((raw ≡ sort_value (parse_sort (some raw)))
              ⊎ (parse_sort (some raw) ≡ LibrarySort.date_added)))
      × ((parse_status none ≡ SourceStatus.shelved)
          × (parse_kind none ≡ SourceKind.book)
          × (parse_sort none ≡ LibrarySort.date_added))
unfolding parse_status parse_kind parse_sort
library_values-parsed status kind sort raw = (
  (status-parsed status, kind-parsed kind, sort-parsed sort),
  (status-known raw, kind-known raw, sort-known raw),
  (refl, refl, refl),
)
