-- ===== src/Witnesses/Contexts.antt =====
-- A test of the chain of CREATE contexts: two contexts, written and read back.
use rust_smb_server.Prelude.{◌≡◌, refl, some, List, [], ◌∷◌}
use rust_smb_server.Prelude.Bytes.{le_bytes, from_le_bytes, splice}
use rust_smb_server.Prelude.Text.{codes}
use rust_smb_server.Proto.Error.{ok}
use rust_smb_server.Proto.Messages.Create.Contexts.{
  CreateContext, parse_chain, parse_chain_at, encode_chain, append_entries, link_entries,
  encode_entry, entry_context, get_range,
}

abbrev two_contexts : List CreateContext
two_contexts =
    record { name = codes "MxAc"; content = 1 ∷ 2 ∷ 3 ∷ [] }
    ∷ record { name = codes "QFid"; content = [] }
    ∷ []

two_contexts_back : parse_chain (encode_chain two_contexts) ≡ some (ok two_contexts)
unfolding parse_chain parse_chain_at encode_chain append_entries link_entries encode_entry
    entry_context get_range le_bytes from_le_bytes splice
two_contexts_back = refl
