-- ===== src/PublicIp/Released.antt =====
-- What the discovery of the public address leaves held.
use sending_system.Base.{
  ℕ, ◌≡◌, ◌∙◌, refl, ap, Bool, true, false, ◌&&◌, Option, none, some, [], ◌∷◌, arith, Bytes, List,
  if◌then◌else◌, Bool-cases, inl, inr, ◌==◌, length,
}
use sending_system.System.{
  Event, World, ask, emit, acquire, release, Resource, curl, buffer, devlist, urls,
}
use sending_system.System.Held.{same, held, present}
use sending_system.PublicIp.{
  Curl, Upnp, write_cb, receive_all, trimmed, settle, fetch, get_public_ip_http, copy_address,
  get_public_ip_upnp,
}

-- The resources after a transfer and the end of its handle.
after_transfer :
    (log : List Event) (p : Bool)
    → held buffer log ≡ some false
    → held curl log ≡ some true
    → (r : Resource)
    → (if same r buffer then some p else held r (release curl ∷ acquire buffer ∷ log))
      ≡ (if same r curl then some false else if p && same r buffer then some true else held r log)
unfolding held
after_transfer log p hb hc curl = ground arith
after_transfer log p hb hc buffer = ground arith
after_transfer log p hb hc r = ground arith

module _ {Db : Type 0} (malloc : ℕ → Bool) where
  -- The callback takes and gives back nothing but the block.
  pub log-receive_all :
      (pieces : List Bytes) (block : Bytes) (w : World Db)
      → (receive_all malloc pieces block w).1.log ≡ w.log
  unfolding receive_all
  log-receive_all [] block w = refl
  log-receive_all (piece ∷ pieces) block w =
      let (taken, block1) = write_cb (malloc w.calls) block piece in
      let w1 = (ask malloc w).1 in
      elim (Bool-cases (taken == length piece)) [
        | inl whole ↦ rw (whole, receive_all) (log-receive_all pieces block1 w1)
        | inr cut ↦ rw (cut, receive_all) refl
      ]

  pub get_public_ip_upnp-held :
      (u : Upnp) (w : World Db)
      → held buffer w.log ≡ some false
      → held devlist w.log ≡ some false
      → held urls w.log ≡ some false
      → (r : Resource)
      → held r (get_public_ip_upnp malloc u w).1.log ≡ (
          if present (get_public_ip_upnp malloc u w).0 && same r buffer
          then some true
          else held r w.log)
  unfolding get_public_ip_upnp copy_address held
  get_public_ip_upnp-held u w hb hd hu buffer = ground arith
  get_public_ip_upnp-held u w hb hd hu r = ground arith

  -- What `trimmed` does to the resources.
  held-trimmed :
      (block : Bytes) (w : World Db)
      → held buffer w.log ≡ some true
      → (r : Resource)
      → held r (trimmed malloc block w).1.log
        ≡ (if same r buffer then some (present (trimmed malloc block w).0) else held r w.log)
  unfolding trimmed held
  held-trimmed block w hb buffer = ground arith
  held-trimmed block w hb r = ground arith

  held-settle :
      (ok : Bool) (block : Bytes) (w : World Db)
      → held buffer w.log ≡ some true
      → (r : Resource)
      → held r (settle malloc ok block w).1.log
        ≡ (if same r buffer then some (present (settle malloc ok block w).0) else held r w.log)
  unfolding settle held
  held-settle true block w hb r = held-trimmed block w hb r
  held-settle false block w hb buffer = ground arith
  held-settle false block w hb r = ground arith

  -- The log after the transfer.
  module _ (c : Curl) (w : World Db) where
    abbrev sent_for : (Bool × Bytes) × World Db
    sent_for =
        let (pieces, w2) = ask c.pieces (emit (acquire buffer) (ask malloc w).1) in
        receive_all malloc pieces (0 ∷ []) w2

    fetch-settle :
        malloc w.calls ≡ true
        → fetch malloc c w
          ≡ settle malloc
              (sent_for.0.0 && c.transferred sent_for.1.calls)
              sent_for.0.1
              (emit (release curl) (ask c.transferred sent_for.1).1)
    unfolding fetch
    fetch-settle got = rw (got) refl

    log-sent_for : sent_for.1.log ≡ acquire buffer ∷ w.log
    log-sent_for = log-receive_all _ _ _

  -- The resources after the outcome of a call of `get_public_ip_http` that had a handle.
  abbrev Fetched : World Db → Option Bytes × World Db → Type 0
  Fetched w o =
      (r : Resource)
      → held r o.1.log ≡ (
          if same r curl
          then some false
          else if present o.0 && same r buffer
          then some true
          else held r w.log)

  refused-Fetched :
      (w : World Db)
      → held curl w.log ≡ some true
      → Fetched w (none, emit (release curl) (ask malloc w).1)
  unfolding held
  refused-Fetched w hc curl = ground arith
  refused-Fetched w hc r = ground arith

  fetch_refused :
      (c : Curl) (w : World Db)
      → malloc w.calls ≡ false
      → fetch malloc c w ≡ (none, emit (release curl) (ask malloc w).1)
  unfolding fetch
  fetch_refused c w refused = rw (refused) refl

  fetch-Fetched :
      (c : Curl) (w : World Db)
      → held buffer w.log ≡ some false
      → held curl w.log ≡ some true
      → Fetched w (fetch malloc c w)
  unfolding held
  fetch-Fetched c w hb hc = elim (Bool-cases (malloc w.calls)) [
    | inr refused ↦ rw (fetch_refused c w refused) (refused-Fetched w hc)
    | inl got ↦
        let ok = (sent_for c w).0.0 && c.transferred (sent_for c w).1.calls in
        let block = (sent_for c w).0.1 in
        let w5 : World Db = emit (release curl) (ask c.transferred (sent_for c w).1).1 in
        let log5 : w5.log ≡ release curl ∷ acquire buffer ∷ w.log =
          ap (λ l. release curl ∷ l) (log-sent_for c w) in
        let hb5 : held buffer w5.log ≡ some true = ap (held buffer) log5 ∙ ground arith in
        rw (fetch-settle c w got) (λ r.
          held-settle ok block w5 hb5 r
          ∙ ap
              (λ l.
                if same r buffer then some (present (settle malloc ok block w5).0) else held r l)
              log5
          ∙ after_transfer w.log (present (settle malloc ok block w5).0) hb hc r)
  ]

  after_init :
      (w : World Db) (o : Option Bytes × World Db)
      → held curl w.log ≡ some false
      → Fetched (emit (acquire curl) w) o
      → (r : Resource)
      → held r o.1.log ≡ (if present o.0 && same r buffer then some true else held r w.log)
  unfolding held
  after_init w o hc h curl = ground (arith, h curl)
  after_init w o hc h r = ground (arith, h r)

  pub get_public_ip_http-held :
      (c : Curl) (w : World Db)
      → held buffer w.log ≡ some false
      → held curl w.log ≡ some false
      → (r : Resource)
      → held r (get_public_ip_http malloc c w).1.log ≡ (
          if present (get_public_ip_http malloc c w).0 && same r buffer
          then some true
          else held r w.log)
  unfolding get_public_ip_http held
  get_public_ip_http-held c w hb hc r = elim (Bool-cases (c.curl_easy_init w.calls)) [
    | inr refused ↦ rw (refused) refl
    | inl made ↦
        let w1 : World Db = (ask c.curl_easy_init w).1 in
        let w2 : World Db = emit (acquire curl) w1 in
        rw (made) (
          after_init w1 (fetch malloc c w2) hc (fetch-Fetched c w2 (ground arith) (ground arith)) r)
  ]

  -- From a state that holds no handle, no device list and no text, both ways to the public address
  -- give back all that they take, whatever calls fail, except the text that they return.
  pub get_public_ip-held :
      (c : Curl) (u : Upnp) (w : World Db)
      → held buffer w.log ≡ some false
      → held curl w.log ≡ some false
      → held devlist w.log ≡ some false
      → held urls w.log ≡ some false
      → (r : Resource)
      → (held r (get_public_ip_http malloc c w).1.log ≡ (
          if present (get_public_ip_http malloc c w).0 && same r buffer
          then some true
          else held r w.log))
        × (held r (get_public_ip_upnp malloc u w).1.log ≡ (
            if present (get_public_ip_upnp malloc u w).0 && same r buffer
            then some true
            else held r w.log))
  get_public_ip-held c u w hb hc hd hu r =
      (get_public_ip_http-held c w hb hc r, get_public_ip_upnp-held u w hb hd hu r)
