-- ===== src/Tests/Import.antt =====
-- Imports of one ready trigger, and of its job.
use pornarr.Common.{
  all, ℕ, ◌≡◌, refl, true, false, none, some, List, [], ◌∷◌, ◌++◌, String, str_eq, leb, ltb, inl,
  arith,
}
use pornarr.Common.Int.{pos, ◌+ℤ◌}
use pornarr.Filters as Content
use pornarr.Filters.{allow, quarantine, reject, evaluate_filters, matches, resolve_rules}
use pornarr.Filters.Decisions.{demands}
use pornarr.Duplicate as Copies
use pornarr.Duplicate.{
  same_oshash, titles_match, studios_match, dates_close, durations_match, detect_duplicate,
}
use pornarr.Quality.{decide_quality, candidate_score, file_score, sum}
use pornarr.Quality.Decisions.{IsAcceptable, IsImprovement}
use pornarr.Search.{StoredProfile}
use pornarr.Search.Choice.{core_profile}
use pornarr.Disk.{open_new, link, copy, replace, unlink, unlink_if_there}
use pornarr.Library.{ProbeResult}
use pornarr.Upgrade.{upgrade_media_file, verify_replacement}
use pornarr.Placement.{
  hardlink_to_temporary, make_temporary, place_reserved, first_free, place_file, reserve_path,
  build_library_path, sanitize_component, finish_place,
}
use pornarr.Download.{ImportTrigger, ready, imported}
use pornarr.Triggers.{at_status}
use pornarr.Import.{
  Catalogue, Reader, QualityDefinition, quality_definition, existing_file, quality_rejection,
  fuzzy_duplicate, filter_rules, requesting_user, already_imported, library_root, release,
}
use pornarr.Import.Vocabulary.{Folding, Vocabulary, record_vocabulary}
use pornarr.Import.Vocabulary.Unique.{HasUniqueTerms, covers, is_assigned, record_vocabulary-lem}
use pornarr.Import.State.{Settings, ImportState, ImportOutcome, finished}
use pornarr.Import.Run.{is_known, content_of, import_ready_trigger}
use pornarr.Import.Run.Cases.{metadata, copy_of}
use pornarr.Import.Run.Sound.{Sound, state_of, import-Sound}
use pornarr.Import.Run.Kept.{IsAccounted}
use pornarr.Import.Run.Accounted.{import-IsAccounted}
use pornarr.Import.Run.Arrival.{becomes_available}
use pornarr.Request.{RequestStatus}
use pornarr.Download.{DownloadState, World}
use pornarr.Download.Poll.{apply_poll}
use pornarr.Tests.Data.{request, job, report, world, setting}
use pornarr.Import.Run.Gates.{imported_passed, replaced_lower}
use pornarr.Import.Job.{
  JobWorld, JobResult, job_returned, job_raised, import_started, import_completed, import_media,
  import_media_again,
}
use pornarr.Tests.Placing.{machine, shelf, ward, download}

abbrev filtering : Content.Python
filtering = record {
  casefold = λ s. s;
  spaces_for_separators = λ s. s;
  strip = λ s. s;
  Float = ℕ;
  float = λ s. none;
  is_less = ltb;
}

abbrev likeness : Copies.Python
likeness = record {
  casefold = λ s. s;
  strip = λ s. s;
  are_similar = str_eq;
  Float = ℕ;
  is_nonzero = leb 1;
  are_close = λ a b. true;
}

abbrev reader : Reader filtering likeness
reader = record {
  machine = machine;
  casefold = λ s. s;
  strip = λ s. s;
  lower = λ s. s;
  resolution_of = λ path. some "1080p";
  normalize_title = λ s. s;
  fingerprint = λ f. some f.content;
  resolve = λ path file_hash. record {
    title = "film";
    studio = some "studio";
    release_date = some 100;
    tags = "outdoor" ∷ [];
    performers = [];
  };
  confidence = λ path file_hash. 80;
  provider = λ path file_hash. "provider";
}

abbrev full_hd : QualityDefinition
full_hd = record { name = "Full HD"; resolution = some "1080p"; weight = 2 }

abbrev definitions : List QualityDefinition
definitions = record { name = "HD"; resolution = some "720p"; weight = 1 } ∷ full_hd ∷ []

abbrev profile : StoredProfile
profile = record {
  items = record { name = "HD"; weight = 1 } ∷ record { name = "Full HD"; weight = 2 } ∷ [];
  cutoff_weight = 2;
  minimum_custom_format_score = pos 0;
}

abbrev catalogue : Catalogue
catalogue = record {
  root_folders = [];
  filter_profiles = [];
  requests = [];
  quality_definitions = definitions;
  default_profile = some profile;
}

abbrev settings : Settings
settings = record {
  library_path = "/library/";
  quarantine_path = "/quarantine/";
  is_usenet = λ path. true;
}

abbrev trigger : ImportTrigger
trigger = record {
  id = 5;
  download_job_id = none;
  source_path = "/usenet/film.mkv";
  reported_path = none;
  status = ready;
  error_code = none;
}

abbrev state : ImportState ℕ
state = record {
  shelf = shelf;
  triggers = trigger ∷ [];
  items = [];
  audit = [];
  tags = record { terms = []; assignments = []; next_id = 1 };
  performers = record { terms = []; assignments = []; next_id = 1 };
  next_id = 3;
}

finishes :
    import_ready_trigger reader ward catalogue settings 0 5 state
    ≡ finished
        (record { status = at_status imported; media = some (1, "/library/film.mkv") })
        (state_of (import_ready_trigger reader ward catalogue settings 0 5 state))
unfolding import_ready_trigger make_temporary place_reserved first_free already_imported
    evaluate_filters matches resolve_rules filter_rules requesting_user quality_rejection
    existing_file quality_definition decide_quality candidate_score file_score sum ◌+ℤ◌
    fuzzy_duplicate detect_duplicate same_oshash titles_match studios_match dates_close
    durations_match library_root upgrade_media_file verify_replacement place_file reserve_path
    build_library_path sanitize_component finish_place open_new link copy replace unlink
    unlink_if_there hardlink_to_temporary
finishes = refl

import-IsAccounted_example :
    IsAccounted download "/usenet/film.mkv" state
      (import_ready_trigger reader ward catalogue settings 0 5 state)
import-IsAccounted_example =
    import-IsAccounted reader ward catalogue settings 0 5 state trigger download refl refl refl
      (λ p differ. refl)
      (record {
        free = refl;
        there_free = refl;
        back_free = refl;
        there_differ = refl;
        back_differ = refl;
        recorded = λ technical. inl refl;
      })

import-Sound_example :
    Sound (state_of (import_ready_trigger reader ward catalogue settings 0 5 state))
import-Sound_example =
    import-Sound reader ward catalogue settings 0 5 state trigger refl (λ p differ. refl)
      (record { one = λ id. ground arith; fresh = λ k. ground arith })

abbrev passed : ImportOutcome
passed = record { status = at_status imported; media = some (1, "/library/film.mkv") }

abbrev after : ImportState ℕ
after = state_of (import_ready_trigger reader ward catalogue settings 0 5 state)

imported_passed_example :
    (technical : ProbeResult ℕ) × (machine.probe download ≡ some technical)
    × (is_known reader ward catalogue settings 0 (some "film") shelf.files ≡ false)
    × (demands filtering
          (content_of reader ward catalogue settings 0
            (metadata reader ward catalogue settings 0 trigger state download)
            80
            (some technical))
          reject
          (filter_rules catalogue trigger)
        ≡ false)
    × (demands filtering
          (content_of reader ward catalogue settings 0
            (metadata reader ward catalogue settings 0 trigger state download)
            80
            (some technical))
          quarantine
          (filter_rules catalogue trigger)
        ≡ false)
    × (quality_rejection reader catalogue shelf.files
          (some "1080p")
          (copy_of reader ward catalogue settings 0 trigger state download technical)
        ≡ none)
imported_passed_example =
    imported_passed reader ward catalogue settings 0 5 state trigger download refl refl refl after
      passed finishes refl

replaced_lower_example :
    IsAcceptable (release full_hd) (core_profile profile)
    × IsImprovement
        (release full_hd)
        (core_profile profile)
        (record { quality_rank = pos 1; custom_format_score = pos 0 })
unfolding existing_file quality_definition fuzzy_duplicate detect_duplicate same_oshash titles_match
    studios_match dates_close durations_match
replaced_lower_example =
    replaced_lower reader ward catalogue settings 0 5 state trigger download refl refl refl after
      passed finishes refl (record { duration = some 1800; container = some "mkv" }) profile full_hd
      (record { quality_rank = pos 1; custom_format_score = pos 0 }) refl refl refl refl

abbrev jobs : JobWorld ℕ
jobs = record { state = state; events = []; queue = []; results = [] }

abbrev world_of : JobResult ℕ → JobWorld ℕ
world_of (job_returned status j) = j
world_of (job_raised e j) = j

returns :
    import_media reader ward catalogue settings 0 5 jobs
    ≡ job_returned
        (at_status imported)
        (world_of (import_media reader ward catalogue settings 0 5 jobs))
unfolding import_media import_ready_trigger make_temporary place_reserved first_free
    already_imported evaluate_filters matches resolve_rules filter_rules requesting_user
    quality_rejection existing_file quality_definition decide_quality candidate_score file_score sum
    ◌+ℤ◌ fuzzy_duplicate detect_duplicate same_oshash titles_match studios_match dates_close
    durations_match library_root upgrade_media_file verify_replacement place_file reserve_path
    build_library_path sanitize_component finish_place open_new link copy replace unlink
    unlink_if_there hardlink_to_temporary
returns = refl

import_media_again_example :
    let j : JobWorld ℕ = world_of (import_media reader ward catalogue settings 0 5 jobs) in
    import_media reader ward catalogue settings 9 5 j
    ≡ job_returned (at_status imported) (record j {
      events =
          (j.events ++ import_started 5 ∷ []) ++ import_completed 5 (at_status imported) none ∷ [];
    })
import_media_again_example =
    import_media_again reader reader ward ward catalogue catalogue settings settings 0 9 5 jobs
      (world_of (import_media reader ward catalogue settings 0 5 jobs)) (at_status imported) returns

abbrev folding : Folding
folding = record { casefold = λ s. s; strip = λ s. s }

abbrev no_terms : Vocabulary
no_terms = record { terms = []; assignments = []; next_id = 1 }

record_vocabulary-lem_example :
    let names : List String = "a" ∷ "b" ∷ "a" ∷ "" ∷ [] in
    let v = record_vocabulary folding 1 (some "provider") names no_terms in
    HasUniqueTerms v × (all (covers folding (λ k. is_assigned 1 k v)) names ≡ true)
record_vocabulary-lem_example =
    record_vocabulary-lem folding 1 (some "provider") ("a" ∷ "b" ∷ "a" ∷ "" ∷ []) no_terms
      (λ n. omega arith)

abbrev owned : ImportTrigger
owned = record trigger { download_job_id = some 7 }

abbrev owned_state : ImportState ℕ
owned_state = record state { triggers = owned ∷ [] }

abbrev landed : ImportState ℕ
landed = state_of (import_ready_trigger reader ward catalogue settings 0 5 owned_state)

lands : import_ready_trigger reader ward catalogue settings 0 5 owned_state ≡ finished passed landed
unfolding import_ready_trigger make_temporary place_reserved first_free already_imported
    evaluate_filters matches resolve_rules filter_rules requesting_user quality_rejection
    existing_file quality_definition decide_quality candidate_score file_score sum ◌+ℤ◌
    fuzzy_duplicate detect_duplicate same_oshash titles_match studios_match dates_close
    durations_match library_root upgrade_media_file verify_replacement place_file reserve_path
    build_library_path sanitize_component finish_place open_new link copy replace unlink
    unlink_if_there hardlink_to_temporary
lands = refl

-- Two requests that wait for the download.
abbrev polled_world : World
polled_world = record world {
  requests = request 1 RequestStatus.queued ∷ request 2 RequestStatus.processing ∷ [];
  triggers = record { stored = landed.triggers; pending = [] };
}

becomes_available_example :
    (apply_poll setting
      (job DownloadState.downloading)
      (report DownloadState.seeding)
      polled_world).1.requests
    ≡ request 1 RequestStatus.available ∷ request 2 RequestStatus.available ∷ []
becomes_available_example =
    becomes_available reader ward catalogue settings 0 owned owned_state landed passed setting
      (job DownloadState.downloading) (report DownloadState.seeding) polled_world refl refl refl
      lands refl refl refl
