-- ===== src/Client/Tests.antt =====
-- The two-person rule at a concrete input: alice opens a scuttle for two, bob approves it.
use netherchat.Base.{true, some, [], ◌∷◌, ◌++◌, Text, codes, replicate}
use netherchat.Base.Int.{pos}
use netherchat.Record.Tests.{toy, alice_key}
use netherchat.Client.Action.{Request, Approval, Client}
use netherchat.Client.Action.Methods.{
  Call, gate_call, approval_frame, approval_bytes, request, params_hash,
}

abbrev bob_key : Text
bob_key = replicate 32 9

abbrev alice : Client
alice = record {
  fpr = alice_key;
  name = codes "alice";
  room = codes "ops";
  quorums = (codes "scuttle", pos 2) ∷ [];
  transport = some [];
  ready = true;
  actions = [];
}

abbrev opens : Call
opens = gate_call (codes "scuttle") (codes "now") (codes "r1") (codes "n1") (pos 160) true

abbrev unsigned : Approval
unsigned = record {
  request_id = codes "r1";
  params_hash = params_hash (codes "now");
  approver_fpr = bob_key;
  sig = [];
  meaning = codes "approved";
  name = codes "bob";
  signed_at = codes "noon";
}

abbrev opened : Request
opened = request alice (codes "scuttle") (codes "now") (pos 2) (codes "r1") (codes "n1") (pos 160)

abbrev bob_approves : Call
bob_approves =
    approval_frame bob_key (record unsigned { sig = bob_key ++ approval_bytes opened unsigned })
