-- ===== src/Library/Examples.antt =====
-- The theorems on src/library.rs at concrete texts.
use braird_core.Prelude.{none, some, ◌≡◌, refl, ◌⊎◌}
use braird_core.Library.{
  SourceStatus, status_value, parse_status, SourceKind, kind_value, parse_kind, LibrarySort,
  sort_value, parse_sort,
}
use braird_core.Library.Values.{library_values-parsed}

test_newer : parse_status (some "finished") ≡ SourceStatus.shelved
unfolding parse_status
test_newer = refl

library_values-parsed_example :
    ((parse_status (some (status_value SourceStatus.reading)) ≡ SourceStatus.reading)
      × (parse_kind (some (kind_value SourceKind.podcast)) ≡ SourceKind.podcast)
      × (parse_sort (some (sort_value LibrarySort.alphabetical)) ≡ LibrarySort.alphabetical))
    × ((("zine" ≡ status_value (parse_status (some "zine")))
          ⊎ (parse_status (some "zine") ≡ SourceStatus.shelved))
        × (("zine" ≡ kind_value (parse_kind (some "zine")))
            ⊎ (parse_kind (some "zine") ≡ SourceKind.book))
        × (("zine" ≡ sort_value (parse_sort (some "zine")))
            ⊎ (parse_sort (some "zine") ≡ LibrarySort.date_added)))
    × ((parse_status none ≡ SourceStatus.shelved)
        × (parse_kind none ≡ SourceKind.book)
        × (parse_sort none ≡ LibrarySort.date_added))
library_values-parsed_example =
    library_values-parsed SourceStatus.reading SourceKind.podcast LibrarySort.alphabetical "zine"
