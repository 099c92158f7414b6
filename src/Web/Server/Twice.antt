-- ===== src/Web/Server/Twice.antt =====
-- services/bb-webd.c: an event that reports data and the end of the stream at once.
use nxp_imx95_building_block.Web.Form.{Answer}
use nxp_imx95_building_block.Web.Request.{Site, length_field, handle_request}
use nxp_imx95_building_block.Web.Server.{
  WebClient, Server, Act, del_fd, close_fd, answer, remove_web_client, add_web_client, accept_web,
  waits, answered, head_read, received, body_in, read_rest, read_web, hang_up_web, ready,
  client_event, web_event,
}
use nxp_imx95_building_block.Common.{
  ◌≡◌, refl, ap, ◌∙◌, true, false, none, some, List, [], ◌∷◌, ◌++◌, Bytes, ℤ, pos, negsuc, leb_ℤ,
  ◌-ℤ◌,
}

-- The only client of a server.
abbrev pub alone : WebClient → List WebClient → Server
alone c cs = record { clients = c ∷ cs; num_clients = pos 1 }

-- When the only client has sent the last bytes of a request that is answered, and the same event
-- reports the end of its stream, the client is removed twice: the count of the clients is -1, and the
-- next connection is stored in front of the array.
pub web_event_twice :
    (site : Site) (c d : WebClient) (cs : List WebClient) (arrived body : Bytes) (a : Answer)
    → received 0 c arrived ≡ some d
    → body_in d.buf ≡ some body
    → waits (length_field d.buf) body ≡ false
    → handle_request site d.buf ≡ some a
    → (r : Server × List Act) × (web_event site (ready 0 true arrived true) (alone c cs) ≡ some r)
      × (r.0.num_clients ≡ negsuc 0)
      × ((cfd : ℤ) → leb_ℤ (pos 0) cfd ≡ true → accept_web cfd r.0 ≡ none)
unfolding web_event client_event hang_up_web read_web read_rest head_read remove_web_client
    accept_web add_web_client ◌-ℤ◌
web_event_twice site c d cs arrived body a e f w h =
    let twice = del_fd d.fd ∷ close_fd d.fd ∷ [] in
    let first = answer d.fd a ∷ twice in
    let step : read_web site 0 c (alone c cs) arrived
        ≡ some (record { clients = d ∷ cs; num_clients = pos 0 }, first, false) =
      ap (read_rest site 0 c (alone c cs)) e
      ∙ ap (head_read site 0 d (alone d cs)) f
      ∙ rw w (ap (answered 0 d (alone d cs)) h) in
    (
      (record { clients = d ∷ cs; num_clients = negsuc 0 }, first ++ twice),
      ap (hang_up_web 0 true) step,
      refl,
      λ cfd k. rw k refl,
    )
