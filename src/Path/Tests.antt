-- ===== src/Path/Tests.antt =====
-- The unit tests of path.rs.
use rust_smb_server.Prelude.{◌≡◌, refl, some, [], ◌∷◌}
use rust_smb_server.Prelude.Text.{
  codes, split, split_parts, split_once, rsplit_once, uppercase, eq_ignore_ascii_case, as_bytes,
}
use rust_smb_server.Error.{ok, err, name_invalid}
use rust_smb_server.Path.{parse_components, split_stream_selector, is_reserved_dos_name}

simple_path :
    parse_components (codes "dir\\sub/file.txt:AFP:$data")
    ≡ ok (record {
      components = codes "dir" ∷ codes "sub" ∷ codes "file.txt" ∷ [];
      stream = some (codes "AFP");
    })
unfolding parse_components split split_parts split_once split_stream_selector is_reserved_dos_name
    rsplit_once uppercase eq_ignore_ascii_case as_bytes
simple_path = refl

dos_name : parse_components (codes "a\\com1.txt") ≡ err name_invalid
unfolding parse_components split split_parts split_once split_stream_selector is_reserved_dos_name
    rsplit_once uppercase eq_ignore_ascii_case as_bytes
dos_name = refl

traversal : parse_components (codes "a\\..\\b") ≡ err name_invalid
unfolding parse_components split split_parts split_once split_stream_selector is_reserved_dos_name
    rsplit_once uppercase eq_ignore_ascii_case as_bytes
traversal = refl
