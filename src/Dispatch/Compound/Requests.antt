-- ===== src/Dispatch/Compound/Requests.antt =====
-- `dispatch_frame` of dispatch.rs on requests instead of bytes: the run over the requests of a frame.
use rust_smb_server.Prelude.{ℕ, ◌+◌, ◌-◌, ◌^◌, Option, List, [], ◌∷◌, ◌++◌, min}
use rust_smb_server.Proto.Wire.{Binrw}
use rust_smb_server.Proto.Header.{Smb2Header, write}
use rust_smb_server.Dispatch.Compound.Chain.{Chain, push}
use rust_smb_server.Dispatch.Compound.Related.{Before, dispatched, before_next}

module _ ⦃b : Binrw⦄ where
  -- The requests of a frame one after the other: each is dispatched as what it takes over makes
  -- of it, with its place among them.
  module _ {ℓ} (St : Type ℓ) (dispatch_one : St → List ℕ → ℕ → St × Option (List ℕ)) where
    abbrev pub run_requests : St → Before → ℕ → List (Smb2Header × List ℕ) → St × List (List ℕ)
    run_requests st p place [] = (st, [])
    run_requests st p place (request ∷ rest) =
        let (hdr, body) = dispatched p request in
        let (st', response) = dispatch_one st (write hdr ++ body) (min place (2 ^ 32 - 1)) in
        let (st'', rs) = run_requests st' (before_next p hdr response) (place + 1) rest in
        (st'', push St dispatch_one response rs)
