-- ===== src/Witnesses/Start.antt =====
-- The theorems on the builder at a concrete input.
use rust_smb_server.Prelude.{refl, false, some, [], ◌∷◌, replicate}
use rust_smb_server.Prelude.Assoc.{lookup, insert, remove, has}
use rust_smb_server.Prelude.Text.{Str, codes, lowercase, eq_ignore_ascii_case, to_ascii_lowercase}
use rust_smb_server.Access.{read_write, str_eq}
use rust_smb_server.Server.State.{ServerState, Share}
use rust_smb_server.Server.Config.{first_unknown}
use rust_smb_server.Server.Config.Consistent.{Consistent}
use rust_smb_server.Server.Admitted.{Admitted}
use rust_smb_server.Server.Builder
use rust_smb_server.Server.Builder.{
  BuildResult, Environment, Builder, new_builder, builder_user, builder_share, new_share,
  share_user, build,
}
use rust_smb_server.Server.Builder.Laws.{
  Built, fresh, with_user, with_share, listening, build-Sound,
}
use rust_smb_server.Witnesses.{ram, alice, a_state}

abbrev environment : Environment
environment = record {
  hostname = some (codes "host");
  new_guid = replicate 16 2;
  from_password = λ password. record { nt_hash = replicate 16 5 };
}

abbrev docs : Share ram
docs = share_user ram alice read_write (new_share ram (codes "Docs") false)

abbrev builder : Builder ram
builder =
    record (builder_share ram docs (builder_user ram alice (codes "secret") (new_builder ram))) {
      listen_addr = some (codes "0.0.0.0:445");
    }

builder-Built : Built ram builder
builder-Built =
    listening (codes "0.0.0.0:445") (with_share docs (with_user alice (codes "secret") fresh))

abbrev started : BuildResult (Str × ServerState ram) → ServerState ram
started (Builder.ok (addr, st)) = st
started _ = a_state

abbrev started_state : ServerState ram
started_state = started (build ram environment builder (1 ∷ []))

build-Sound_example : Consistent ram started_state × Admitted ram started_state
unfolding build new_builder builder_user builder_share new_share share_user lookup insert has
    lowercase eq_ignore_ascii_case to_ascii_lowercase first_unknown remove
build-Sound_example =
    build-Sound ram environment builder (1 ∷ []) (codes "0.0.0.0:445") started_state builder-Built
      refl
