-- ===== src/Client/Action/Quorum.antt =====
-- A gated action is performed only with the signatures of enough other members.
use netherchat.Record.Library.{Library}
use netherchat.Client.Action.{Client}
