-- ===== src/Defender/Client/Masking.antt =====
-- The `catch` of apiCall (defender-base-client in .github/actions/propose/dist/index.js) on what
-- is no answer of the service.
use forta_node_tr.Prelude.{codes}
use forta_node_tr.Js.{Thrown, error}
use forta_node_tr.Defender.Remote.{Remote}
use forta_node_tr.Defender.Client.{Client}

abbrev pub no_status : Thrown
no_status =
    error (codes "TypeError") (codes "Cannot read properties of undefined (reading 'status')")
