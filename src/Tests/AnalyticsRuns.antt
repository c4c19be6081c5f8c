-- ===== src/Tests/AnalyticsRuns.antt =====
-- Runs of the TSV parser and of a download
-- (crates/stack_core/src/providers/appstore/client.rs).
use mathlib.Core.List.{cons≢nil}
use stack_connect_core.Prelude.{
  ℕ, ◌≤◌, ◌≡◌, refl, arith, String, Option, none, some, List, [], ◌∷◌, length, eqb, if◌then◌else◌,
  codes, join,
}
use stack_connect_core.Error.{ok, err, Parsed, parsed, malformed}
use stack_connect_core.Wire.{Session, Reply, answer, unsent, unread, pure, ◌>>=◌, decoded, log_line}
use stack_connect_core.Wire.{no_body}
use stack_connect_core.Wire.Outcomes.{OkHas, Returns, Finishes}
use stack_connect_core.Analytics.Tsv.{parse_analytics_tsv, print_rows, lines, non_empty, split}
use stack_connect_core.Analytics.Tsv.Split.{free}
use stack_connect_core.Analytics.Tsv.RoundTrip.{IsRow, parse-print}
use stack_connect_core.Analytics.Download.{
  Streams, or_network, too_large, send_streamed, read_chunk, read_chunks, read_segment,
  download_analytics_segment,
}
use stack_connect_core.Analytics.Download.Capped.{FromSegment, download-FromSegment}
use stack_connect_core.Analytics.Download.Unsigned.{download_sent}
use stack_connect_core.Analytics.Download.Ending.{NoEmptyChunk, download-Finishes}
use stack_connect_core.Analytics.Download.Refused.{download_refused}
use stack_connect_core.Tests.Script.{Script, scripted, sample_client as client, ready}

abbrev heading : List String
heading = "Date" ∷ "Units" ∷ []

abbrev first_row : List String
first_row = "2024-01-01" ∷ "5" ∷ []

abbrev second_row : List String
second_row = "" ∷ "7" ∷ []

heading-IsRow : IsRow heading
unfolding free join
heading-IsRow = record {
  listed = λ e. cons≢nil e;
  visible = refl;
  tabs = (refl, (refl, tt));
  newlines = (refl, (refl, tt));
  returns = (refl, (refl, tt));
}

first_row-IsRow : IsRow first_row
unfolding free join
first_row-IsRow = record {
  listed = λ e. cons≢nil e;
  visible = refl;
  tabs = (refl, (refl, tt));
  newlines = (refl, (refl, tt));
  returns = (refl, (refl, tt));
}

second_row-IsRow : IsRow second_row
unfolding free join
second_row-IsRow = record {
  listed = λ e. cons≢nil e;
  visible = refl;
  tabs = (refl, (refl, tt));
  newlines = (refl, (refl, tt));
  returns = (refl, (refl, tt));
}

parse-print_example :
    parse_analytics_tsv (print_rows (heading ∷ first_row ∷ second_row ∷ []))
    ≡ record { headers = heading; rows = first_row ∷ second_row ∷ []; row_count = 2 }
parse-print_example =
    parse-print heading (first_row ∷ second_row ∷ []) heading-IsRow
      (first_row-IsRow, (second_row-IsRow, tt))

-- A text with a carriage return, an empty line and a line that no newline ends.
abbrev report : String
report = "Date\tUnits\r\n\n2024-01-01\t5"

parsed_report :
    parse_analytics_tsv report ≡ record { headers = heading; rows = first_row ∷ []; row_count = 1 }
unfolding parse_analytics_tsv lines non_empty split
parsed_report = refl

-- A response with its status and its declared length, whose chunks are the script's next bodies,
-- each behind the byte of its status.
abbrev next_chunk : ℕ → List Reply → Parsed (Option (List ℕ)) × Script
next_chunk n [] = (parsed none, record { time = n; replies = [] })
next_chunk n (answer status body ∷ rest) =
    (parsed (some (status ∷ codes body)), record { time = n; replies = rest })
next_chunk n (unsent m ∷ rest) = (malformed m, record { time = n; replies = rest })
next_chunk n (unread m ∷ rest) = (malformed m, record { time = n; replies = rest })

abbrev pieces : Streams scripted
pieces = record {
  Response = ℕ × Option ℕ;
  begin = λ req w. (parsed (200, some (length w.replies)), w);
  status = λ r. r.0;
  content_length = λ r. r.1;
  text = λ r w. (parsed "", w);
  chunk = λ r w. next_chunk w.time w.replies;
  gunzip =
      λ bytes. if eqb (length bytes) 0 then malformed "unexpected end of file" else parsed report;
}

abbrev two_chunks : Session scripted
two_chunks = ready (answer 31 "ab" ∷ answer 8 "c" ∷ [])

-- The run returns the table of the report.
downloaded :
    (download_analytics_segment pieces client 4 "https://cdn" 5 two_chunks).0
    ≡ ok (record { headers = heading; rows = first_row ∷ []; row_count = 1 })
unfolding download_analytics_segment send_streamed read_segment read_chunks read_chunk
    parse_analytics_tsv lines non_empty split log_line pure decoded ◌>>=◌
downloaded = refl

download-FromSegment_example :
    Returns (FromSegment pieces 5) (download_analytics_segment pieces client 4 "https://cdn" 5)
download-FromSegment_example = download-FromSegment pieces client 4 "https://cdn" 5

download_sent_example :
    (download_analytics_segment pieces client 4 "https://cdn" 5 (ready [])).1.sent ≡ (
      record { method = "GET"; url = "https://cdn"; bearer = none; headers = []; body = no_body }
      ∷ [])
download_sent_example = download_sent pieces client 4 "https://cdn" 5 (ready [])

abbrev IsFilled : Option (List ℕ) → Type 0
IsFilled next = (bytes : List ℕ) → next ≡ some bytes → 1 ≤ length bytes

filled : (b : ℕ) (bs : List ℕ) → IsFilled (some (b ∷ bs))
filled b bs [] e = absurd (cc e)
filled b bs (c ∷ cs) e = omega arith

next_chunk-IsFilled : (n : ℕ) (rs : List Reply) → OkHas IsFilled (or_network (next_chunk n rs).0)
next_chunk-IsFilled n [] = λ bytes e. absurd (cc e)
next_chunk-IsFilled n (answer status body ∷ rest) = filled status (codes body)
next_chunk-IsFilled n (unsent m ∷ rest) = tt
next_chunk-IsFilled n (unread m ∷ rest) = tt

pieces-NoEmptyChunk : NoEmptyChunk pieces
unfolding read_chunk
pieces-NoEmptyChunk = record {
  holds = λ response s. next_chunk-IsFilled s.world.time s.world.replies;
}

download-Finishes_example : Finishes (download_analytics_segment pieces client 6 "https://cdn" 5)
download-Finishes_example = download-Finishes pieces pieces-NoEmptyChunk client "https://cdn" 5

download_refused_example :
    let d = download_analytics_segment pieces client 4 "https://cdn" 1 two_chunks in
    (d.0 ≡ err too_large) × (d.1.world ≡ two_chunks.world)
download_refused_example =
    download_refused pieces client 4 "https://cdn" 1 2 two_chunks (200, some 2) two_chunks.world
      refl refl (omega arith)
