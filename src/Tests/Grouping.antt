-- ===== src/Tests/Grouping.antt =====
-- Three offers of two releases.
use pornarr.Common.{◌≡◌, true, List, [], ◌∷◌, none, some, count, ltb, ◌*◌, ◌==◌}
use pornarr.Grouping.{Python, Release, IndexedRelease, deduplicate}
use pornarr.Grouping.Members.{members, deduplicate_keeps_all}

abbrev python : Python
python = record {
  casefold = λ s. s;
  words_joined = λ s. s;
  is_at_most = λ a b. true;
  exceeds_tolerance = λ gap size. ltb (size * 3) (gap * 100);
}

abbrev title : Release
title = record {
  guid = "a";
  title = "title";
  download_url = none;
  size = some 1000;
  published_at = none;
  seeders = some 4;
  info_hash = none;
}

abbrev offers : List IndexedRelease
offers =
    record { indexer_id = "one"; priority = 2; release = title }
    ∷ record { indexer_id = "two"; priority = 1; release = record title { size = some 1010 } }
    ∷ record { indexer_id = "two"; priority = 1; release = record title { size = some 2000 } }
    ∷ []

deduplicate_keeps_all_example :
    count (λ r. r.priority == 1) (members (deduplicate python offers)) ≡ 2
deduplicate_keeps_all_example = deduplicate_keeps_all python (λ r. r.priority == 1) offers
