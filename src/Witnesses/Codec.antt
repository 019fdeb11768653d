-- ===== src/Witnesses/Codec.antt =====
-- The theorems on the wire formats, on paths and on patterns at concrete inputs, and a test of the
-- wildcard matcher.
use rust_smb_server.Prelude.{
  ◌*◌, ◌+◌, ℕ, ◌≡◌, ◌↔◌, ◌⊎◌, refl, Bool, true, false, none, some, List, [], ◌∷◌, ◌++◌, replicate,
  arith, ltb, ◌&&◌,
}
use rust_smb_server.Prelude.Bytes.{IsBytes, from_le_bytes}
use rust_smb_server.Prelude.Text.{
  codes, split, split_parts, split_once, rsplit_once, uppercase, eq_ignore_ascii_case, as_bytes,
  to_ascii_lowercase,
}
use rust_smb_server.Error.{ok}
use rust_smb_server.Path
use rust_smb_server.Path.{
  SmbPath, root, parse_components, join, display_backslash, split_stream_selector,
  is_reserved_dos_name,
}
use rust_smb_server.Path.Valid.{IsValid, parse_components-IsValid, join-IsValid}
use rust_smb_server.Path.Display.{parse_components-display_backslash}
use rust_smb_server.Proto.Error
use rust_smb_server.Proto.Wire.{little_endian, read_bytes, little_read}
use rust_smb_server.Proto.Header.Raw.{raw_read}
use rust_smb_server.Proto.Header.{
  Smb2Header, sync_tail, parse, write, is_async, header_of_raw, parse_command, parse_tail,
}
use rust_smb_server.Proto.Header.Opcode.{Command, as_u16, of_u16, of_u16_inv}
use rust_smb_server.Proto.Header.Opcode
use rust_smb_server.Proto.Header.RoundTrip.{FitsHeader, parse-write, write-parse}
use rust_smb_server.Conn.Stream.{end_of_stream, FrameRead, read_frames, write_frames}
use rust_smb_server.Conn.Stream.RoundTrip.{read_frames-write_frames}
use rust_smb_server.Conn.Stream.Total.{read_frames_total}
use rust_smb_server.Utils.Wildcard.{
  scan, takes, takes_next, star_next, same_letter, only_stars, dos_pattern_matches_inner,
  dos_pattern_matches,
}
use rust_smb_server.Utils.Wildcard.Spec.{Matches, wild}
use rust_smb_server.Utils.Wildcard.Terminates.{dos_pattern_matches_inner_total}
use rust_smb_server.Utils.Wildcard.Correct.{IsMatchAll, dos_pattern_matches-Matches}
use rust_smb_server.Utils.Time.{
  days_of_years, system_time_to_filetime, system_time_to_filetime-ticks,
}

abbrev a_header : Smb2Header
a_header = record {
  credit_charge = 1;
  channel_sequence_status = 0;
  command = Opcode.read;
  credit_request_response = 31;
  flags = 0;
  next_command = 0;
  message_id = 7;
  tail = sync_tail 0 5;
  session_id = 9;
  signature = replicate 16 0;
}

a_header-FitsHeader : FitsHeader a_header
unfolding is_async
a_header-FitsHeader = record {
  credit_charge = omega arith;
  status = omega arith;
  credit = omega arith;
  flags = omega arith;
  next_command = omega arith;
  message_id = omega arith;
  tail = (omega arith, omega arith);
  session_id = omega arith;
  signature = refl;
}

abbrev all_small : List ℕ → Bool
all_small [] = true
all_small (b ∷ bs) = ltb b 256 && all_small bs

IsBytes-of_test : (bs : List ℕ) → all_small bs ≡ true → IsBytes bs
IsBytes-of_test [] h = tt
IsBytes-of_test (b ∷ bs) h = (ground arith, IsBytes-of_test bs (ground arith))

-- The bytes of the header, and one more.
abbrev a_buffer : List ℕ
a_buffer =
    (254 ∷ 83 ∷ 77 ∷ 66 ∷ 64 ∷ 0 ∷ 1 ∷ 0 ∷ 0 ∷ 0 ∷ 0 ∷ 0 ∷ 8 ∷ 0 ∷ 31 ∷ 0 ∷ 0 ∷ 0 ∷ 0 ∷ 0 ∷ 0 ∷ 0
      ∷ 0 ∷ 0 ∷ 7 ∷ 0 ∷ 0 ∷ 0 ∷ 0 ∷ 0 ∷ 0 ∷ 0 ∷ 0 ∷ 0 ∷ 0 ∷ 0 ∷ 5 ∷ 0 ∷ 0 ∷ 0 ∷ 9 ∷ 0 ∷ 0 ∷ 0 ∷ 0
      ∷ 0 ∷ 0 ∷ 0 ∷ [])
    ++ (replicate 16 0 ++ 1 ∷ [])

a_buffer-parse : parse ⦃b = little_endian⦄ a_buffer ≡ Error.ok (a_header, 1 ∷ [])
unfolding parse raw_read read_bytes little_read little_endian from_le_bytes header_of_raw
    parse_command of_u16 parse_tail
a_buffer-parse = refl

write-parse_example : write ⦃b = little_endian⦄ a_header ++ 1 ∷ [] ≡ a_buffer
write-parse_example =
    write-parse ⦃b = little_endian⦄ a_buffer a_header (1 ∷ []) (IsBytes-of_test a_buffer refl)
      a_buffer-parse

parse-write_example :
    parse ⦃b = little_endian⦄ (write ⦃b = little_endian⦄ a_header ++ 1 ∷ 2 ∷ [])
    ≡ Error.ok (a_header, 1 ∷ 2 ∷ [])
parse-write_example = parse-write ⦃b = little_endian⦄ a_header (1 ∷ 2 ∷ []) a_header-FitsHeader

read_frames-write_frames_example :
    read_frames 3 (write_frames ((1 ∷ 2 ∷ []) ∷ [] ∷ []))
    ≡ some ((1 ∷ 2 ∷ []) ∷ [] ∷ [], end_of_stream)
read_frames-write_frames_example =
    read_frames-write_frames ((1 ∷ 2 ∷ []) ∷ [] ∷ []) (omega arith, (omega arith, tt))

read_frames_total_example :
    (p : List (List ℕ) × FrameRead) × (read_frames 9 (0 ∷ 0 ∷ 0 ∷ 1 ∷ 8 ∷ []) ≡ some p)
read_frames_total_example = read_frames_total 9 (0 ∷ 0 ∷ 0 ∷ 1 ∷ 8 ∷ []) (omega arith)

abbrev a_path : SmbPath
a_path = record { components = codes "dir" ∷ codes "f.txt" ∷ []; stream = none }

parse_components-IsValid_example : IsValid a_path
unfolding parse_components split split_parts split_once split_stream_selector is_reserved_dos_name
    rsplit_once uppercase eq_ignore_ascii_case as_bytes
parse_components-IsValid_example = parse_components-IsValid (codes "dir/f.txt") a_path refl

a_path-IsValid : IsValid a_path
a_path-IsValid = parse_components-IsValid_example

join-IsValid_example :
    IsValid (record { components = codes "dir" ∷ codes "f.txt" ∷ codes "x" ∷ []; stream = none })
unfolding join parse_components split split_parts split_once split_stream_selector
    is_reserved_dos_name rsplit_once uppercase eq_ignore_ascii_case as_bytes
join-IsValid_example = join-IsValid a_path (codes "x") _ a_path-IsValid refl

parse_components-display_backslash_example : parse_components (display_backslash a_path) ≡ ok a_path
parse_components-display_backslash_example =
    parse_components-display_backslash a_path a_path-IsValid refl

dos_pattern_matches-Matches_example :
    (r : Bool) × (dos_pattern_matches (codes "a?*.t") (codes "abc.T") ≡ some r)
    × ((r ≡ true) ↔ (IsMatchAll (codes "a?*.t") ⊎ Matches (codes "a?*.t") (codes "abc.T")))
dos_pattern_matches-Matches_example =
    dos_pattern_matches-Matches (codes "a?*.t") (codes "abc.T") (cc, (cc, (cc, (cc, (cc, tt)))))

-- A `*` in the name is taken by the `*` of the pattern as by any other character, and the star is
-- not remembered: the matcher says no, although the pattern's meaning holds.
star_in_name :
    (dos_pattern_matches_inner (codes "*b") (codes "*ab") ≡ some false)
    × (wild (codes "*b") (codes "*ab") ≡ true)
unfolding dos_pattern_matches_inner scan takes takes_next star_next same_letter only_stars
    to_ascii_lowercase wild
star_in_name = (refl, refl)

system_time_to_filetime-ticks_example :
    system_time_to_filetime (some (record { as_secs = 1; subsec_nanos = 500 }))
    ≡ (days_of_years 1601 369 * 86_400 + 1) * 10_000_000 + 5
system_time_to_filetime-ticks_example =
    system_time_to_filetime-ticks (record { as_secs = 1; subsec_nanos = 500 }) (omega arith)
      (omega arith)

dos_pattern_matches_inner_total_example :
    (r : Bool) × (dos_pattern_matches_inner (codes "a*b") (codes "aab") ≡ some r)
dos_pattern_matches_inner_total_example =
    dos_pattern_matches_inner_total (codes "a*b") (codes "aab")
