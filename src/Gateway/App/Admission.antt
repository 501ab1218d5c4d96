-- ===== src/Gateway/App/Admission.antt =====
-- What src/agent_lab/gateway/app.py admits: `chat`, whole.
use agent_lab.Common.{
  ℕ, ◌+◌, ◌≤◌, ◌≡◌, refl, sym, ◌∙◌, ap, Bool, true, false, ◌&&◌, not, List, [], ◌∷◌, Option, none,
  some, String, str_eq, if◌then◌else◌, ltb, length, length-append, arith, subst, inl, inr,
}
use agent_lab.Common.Int.{ℤ, pos, ◌-ℤ◌, ◌≤ℤ◌}
use agent_lab.Json.{Value, int, get}
use agent_lab.Json.Laws.{get-put}
use agent_lab.Gateway.Library.{Library}
use agent_lab.Gateway.Result.{
  Result, ok, raised, api, client_disconnect, >>=-eq-ok, past_reject, ok_inj,
}
use agent_lab.Gateway.Effort.{Rules}
use agent_lab.Gateway.Limit.{limit, IsSound}
use agent_lab.Gateway.Prepare.{Prepared, prepare}
use agent_lab.Gateway.Prepare.Accepted.{prepare-limit}
use agent_lab.Gateway.Queue.{RequestQueue, full, reserve}
use agent_lab.Gateway.Keys.{Hashing, KeysFile}
use agent_lab.Gateway.Keys.Store.{KeyStore, check}
use agent_lab.Gateway.Keys.Store.View.{HasKey, find_last-HasKey, InStep, view, check-find_last}
use agent_lab.Gateway.App.{
  Web, Chunk, bytes, disconnect, Request, max_body_bytes, too_large, busy, partition, read_body,
  Admitted, Outcome, admitted, conclude, authenticate, read_json, admit, chat, accept, count_prompt,
  take_place, check_length, invalid_api_key,
}

-- A body that was read has the allowed size.
read_body-bound :
    (size : ℕ) (chunks : List Chunk) (body : List ℕ)
    → size ≤ max_body_bytes
    → read_body size chunks ≡ ok body
    → size + length body ≤ max_body_bytes
unfolding read_body
read_body-bound size [] body fits e =
    subst (λ xs. size + length xs ≤ max_body_bytes) (ok_inj e) (omega (arith, fits))
read_body-bound size (disconnect ∷ rest) body fits e = cc
read_body-bound size (bytes b ∷ rest) body fits e =
    let (small, e') = past_reject (ltb max_body_bytes (size + length b)) too_large _ e in
    let (more, r, e'') = >>=-eq-ok (read_body (size + length b) rest) _ e' in
    let bound = read_body-bound (size + length b) rest more (ground (arith, small)) r in
    subst (λ xs. size + length xs ≤ max_body_bytes) (ok_inj e'')
      (omega (arith, bound, length-append b more))

-- Only a whole run admits.
concluded : (r : Result Admitted) (a : Admitted) → conclude r ≡ admitted a → r ≡ ok a
unfolding conclude
concluded (ok b) a e = cc
concluded (raised (api x)) a e = cc
concluded (raised client_disconnect) a e = cc
concluded (raised _) a e = cc

module _ (web : Web) (hashing : Hashing) (store : KeyStore) (file : KeysFile)
    (request : Request) where
  -- Some key of the file as it is now is the key that the request brings.
  abbrev pub IsKnown : String → Type 0
  IsKnown name =
      HasKey name (hashing.digest (web.strip (partition request.authorization).1))
        (view hashing file)

  accept-IsKnown :
      (name : String) (o : Option (Option String × KeyStore))
      → check hashing store file (web.strip (partition request.authorization).1) ≡ o
      → InStep hashing store file
      → (accept web hashing store o).0 ≡ ok name
      → IsKnown name
  unfolding accept
  accept-IsKnown name none p step e = cc
  accept-IsKnown name (some (none, now)) p step e = cc
  accept-IsKnown name (some (some n, now)) p step e =
      find_last-HasKey (hashing.digest key) (view hashing file) name
        (sym (check-find_last hashing store now file key (some n) step p).0 ∙ ap some (ok_inj e))
    where
      key : String
      key = web.strip (partition request.authorization).1

  authenticate-IsKnown :
      (name : String)
      → InStep hashing store file
      → (authenticate web hashing store file request).0 ≡ ok name
      → IsKnown name
  unfolding authenticate
  authenticate-IsKnown name step e =
      go
        (str_eq (web.lower (partition request.authorization).0) "bearer"
          && not (str_eq (partition request.authorization).1 ""))
        e
    where
      known : String → Option (Option String × KeyStore)
      known key = check hashing store file key

      go :
          (b : Bool)
          → (if b
              then accept web hashing store (known (web.strip (partition request.authorization).1))
              else (raised invalid_api_key, store)).0
            ≡ ok name
          → IsKnown name
      go true eq =
          accept-IsKnown name (known (web.strip (partition request.authorization).1)) refl step eq
      go false eq = cc

  module _ (lib : Library) (rules : Rules) where
    -- What an admitted request is known to satisfy.
    pub record IsAdmitted (after : RequestQueue) (a : Admitted) : Type 0 where
      pub known : IsKnown a.key
      -- its body, in size
      pub body :
          (data_read : List ℕ) × (read_body 0 request.stream ≡ ok data_read)
          × (length data_read ≤ max_body_bytes)
      -- what the backend may answer with
      pub positive : pos 1 ≤ℤ a.max_tokens
      pub fits : a.max_tokens ≤ℤ rules.limits.max_context -ℤ pos a.prompt_tokens
      pub below_output : a.max_tokens ≤ℤ rules.limits.max_output_tokens
      pub forwarded : get "max_tokens" a.prepared.body ≡ some (int a.max_tokens)
      -- its place
      pub place : reserve after ≡ some a.queue

    limit-bounds :
        (value : Value) (p : Prepared) (prompt : ℕ) (n : ℤ)
        → IsSound rules.limits
        → prepare lib rules value ≡ ok p
        → limit prompt p.requested_max_tokens rules.limits ≡ ok n
        → (pos 1 ≤ℤ n)
          × (n ≤ℤ rules.limits.max_context -ℤ pos prompt)
          × (n ≤ℤ rules.limits.max_output_tokens)
    limit-bounds value p prompt n sound accepted e =
        elim (prepare-limit lib rules value p accepted prompt sound) [
          | inl refusal ↦ cc (e, refusal.0)
          | inr (m, found, positive, fits, below, honours) ↦
              subst
                (λ (k : ℤ).
                  (pos 1 ≤ℤ k)
                  × (k ≤ℤ rules.limits.max_context -ℤ pos prompt)
                  × (k ≤ℤ rules.limits.max_output_tokens))
                (ok_inj (sym found ∙ e)) (positive, fits, below)
        ]

    taken :
        (queue next : RequestQueue)
        → take_place web hashing queue ≡ ok next
        → reserve queue ≡ some next
    unfolding take_place
    taken queue next e = go (reserve queue) e
      where
        go :
            (o : Option RequestQueue)
            → (elim o [ none ↦ raised busy | some q ↦ ok q ]) ≡ ok next
            → o ≡ some next
        go none eq = cc
        go (some q) eq = ap some (ok_inj eq)

    read :
        (value : Value)
        → read_json web hashing request ≡ ok value
        → (data_read : List ℕ) × (read_body 0 request.stream ≡ ok data_read)
          × (length data_read ≤ max_body_bytes)
    unfolding read_json
    read value e =
        let (u, _, e') = >>=-eq-ok (check_length web hashing request.content_length) _ e in
        let (body, r, _) = >>=-eq-ok (read_body 0 request.stream) _ e' in
        let bound = read_body-bound 0 request.stream body (omega arith) r in
        (body, r, omega (arith, bound))

    admit-IsAdmitted :
        (before after : RequestQueue) (a : Admitted)
        → InStep hashing store file
        → IsSound rules.limits
        → admit web hashing lib rules
            (authenticate web hashing store file request).0
            request
            before
            after
          ≡ ok a
        → IsAdmitted after a
    unfolding admit
    admit-IsAdmitted before after a step sound e =
        let (key, k, e₁) = >>=-eq-ok (authenticate web hashing store file request).0 _ e in
        let (value, v, e₂) = >>=-eq-ok (read_json web hashing request) _ e₁ in
        let (prepared, p, e₃) = >>=-eq-ok (prepare lib rules value) _ e₂ in
        let (_, e₄) = past_reject (full before) busy _ e₃ in
        let (prompt, c, e₅) = >>=-eq-ok (count_prompt web hashing prepared) _ e₄ in
        let (n, l, e₆) = >>=-eq-ok (limit prompt prepared.requested_max_tokens rules.limits) _ e₅ in
        let (queue, t, e₇) = >>=-eq-ok (take_place web hashing after) _ e₆ in
        let bounds = limit-bounds value prepared prompt n sound p l in
        subst (IsAdmitted after) (ok_inj e₇) (record {
          known = authenticate-IsKnown key step k;
          body = read value v;
          positive = bounds.0;
          fits = bounds.1;
          below_output = bounds.2;
          forwarded = get-put "max_tokens" "max_tokens" (int n) prepared.body;
          place = taken after queue t;
        })

    -- What `chat` admits, where the key store is in step with the key file and the profile's limits are
    -- sound: the key is one of the file as it is now, the body has at most 16 MiB, the answer's token
    -- limit is positive, fits behind the prompt and is what the backend gets, and the queue had a place.
    pub chat-IsAdmitted :
        (before after : RequestQueue) (a : Admitted) (now : KeyStore)
        → InStep hashing store file
        → IsSound rules.limits
        → chat web hashing lib rules store file request before after ≡ (admitted a, now)
        → IsAdmitted after a
    unfolding chat
    chat-IsAdmitted before after a now step sound e =
        admit-IsAdmitted before after a step sound
          (concluded _ a (ap (λ (x : Outcome × KeyStore). x.0) e))
