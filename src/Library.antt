-- ===== src/Library.antt =====
-- src/library.rs: the stored forms of a source's status, of its kind and of the Library's sort.
pub mod Values
pub mod Examples
use braird_core.Prelude.{String, Option, none, some, str_eq, if◌then◌else◌}

pub data SourceStatus : Type 0 where
  to_read : SourceStatus
  reading : SourceStatus
  shelved : SourceStatus

unfoldable pub status_value : SourceStatus → String
status_value SourceStatus.to_read = "to_read"
status_value SourceStatus.reading = "reading"
status_value SourceStatus.shelved = "shelved"

unfoldable pub parse_status : Option String → SourceStatus
parse_status none = SourceStatus.shelved
parse_status (some raw) =
    if str_eq raw "to_read"
    then SourceStatus.to_read
    else if str_eq raw "reading"
    then SourceStatus.reading
    else SourceStatus.shelved

pub data SourceKind : Type 0 where
  book : SourceKind
  podcast : SourceKind
  article : SourceKind
  research_paper : SourceKind
  video : SourceKind
  social : SourceKind

unfoldable pub kind_value : SourceKind → String
kind_value SourceKind.book = "book"
kind_value SourceKind.podcast = "podcast"
kind_value SourceKind.article = "article"
kind_value SourceKind.research_paper = "research_paper"
kind_value SourceKind.video = "video"
kind_value SourceKind.social = "social"

unfoldable pub parse_kind : Option String → SourceKind
parse_kind none = SourceKind.book
parse_kind (some raw) =
    if str_eq raw "podcast"
    then SourceKind.podcast
    else if str_eq raw "article"
    then SourceKind.article
    else if str_eq raw "research_paper"
    then SourceKind.research_paper
    else if str_eq raw "video"
    then SourceKind.video
    else if str_eq raw "social"
    then SourceKind.social
    else SourceKind.book

pub data LibrarySort : Type 0 where
  date_added : LibrarySort
  alphabetical : LibrarySort

unfoldable pub sort_value : LibrarySort → String
sort_value LibrarySort.date_added = "date_added"
sort_value LibrarySort.alphabetical = "alphabetical"

unfoldable pub parse_sort : Option String → LibrarySort
parse_sort none = LibrarySort.date_added
parse_sort (some raw) =
    if str_eq raw "alphabetical" then LibrarySort.alphabetical else LibrarySort.date_added
