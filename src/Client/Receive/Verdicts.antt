-- ===== src/Client/Receive/Verdicts.antt =====
-- What the verdicts of `SNMPClient::receive` in src/SNMPClient.cpp leave of an operation.
use arduino_snmp_manager.Common.{
  ℕ, zero, suc, ◌+◌, ◌<◌, ◌^◌, ◌≡◌, refl, sym, ap, ◌∙◌, Bool, true, false, not, ◌&&◌, ◌||◌, Option,
  none, some, List, [], ◌∷◌, arith, length, drop, ltb, leb, ◌==◌, if◌then◌else◌, ==_iff,
}
use arduino_snmp_manager.Ber.Tag.{same_type, get_request_pdu, set_request_pdu, get_bulk_request_pdu}
use arduino_snmp_manager.Ber.Complex.{
  Container, integer_type, octet_type, raw_type, oid_type, null_type, network_address_type,
  counter64_type, complex_type,
}
use arduino_snmp_manager.Response.{VarBind, Response}
use arduino_snmp_manager.Client.Types.{
  Status, success, missing, partial, protocol_error, capacity_exceeded, type_mismatch, is_ok,
  is_pending, SnmpResult, Operation, op_pending,
}
use arduino_snmp_manager.Client.Value.{copy_value, set_bytes}
use arduino_snmp_manager.Client.Operation.{is_version1}
use arduino_snmp_manager.Client.Receive.{
  Verdict, continue, finish_with, missing_object, agent_error_verdict, names_agree, filled, fill,
  fill_from, overall, query_verdict,
}

-- A verdict goes on with the same request to be sent anew, or finishes with a final status.
abbrev pub IsKept : Operation → Verdict → Type 0
IsKept op (continue op') = (op_pending op' ≡ op_pending op) × (op'.id ≡ op.id) × (op'.sent ≡ false)
IsKept op (finish_with op' status) = (op'.id ≡ op.id) × (is_pending status ≡ false)

abbrev pub AreKept : Operation → Option Verdict → Type 0
AreKept op none = Unit
AreKept op (some verdict) = IsKept op verdict

if-IsKept :
    (op : Operation) (b : Bool) (first second : Verdict)
    → (b ≡ true → IsKept op first)
    → (b ≡ false → IsKept op second)
    → IsKept op (if b then first else second)
if-IsKept op true first second h k = h refl
if-IsKept op false first second h k = k refl

if-AreKept :
    (op : Operation) (b : Bool) (first second : Option Verdict)
    → AreKept op first
    → AreKept op second
    → AreKept op (if b then first else second)
if-AreKept op true first second h k = h
if-AreKept op false first second h k = k

chosen_final :
    (b : Bool) (s s' : Status)
    → is_pending s ≡ false
    → is_pending s' ≡ false
    → is_pending (if b then s else s') ≡ false
chosen_final true s s' h k = h
chosen_final false s s' h k = k

missing_object-IsKept : (op : Operation) → IsKept op (missing_object op)
unfolding missing_object
missing_object-IsKept op =
    if-IsKept op (ltb 1 op.batch) _ _ (λ e. (refl, refl, refl))
      (λ e.
        if-IsKept op (op.offset + 1 == length op.results) _ _
          (λ e. (refl, chosen_final (length op.results == 1) missing partial refl refl))
          (λ e. (refl, refl, refl)))

pub agent_error_verdict-AreKept :
    (op : Operation) (r : Response) → AreKept op (agent_error_verdict op r)
unfolding agent_error_verdict
agent_error_verdict-AreKept op r =
    if-AreKept op (ltb 18 r.error_status || leb (2 ^ 31) r.error_index) _ _ (refl, refl)
      (if-AreKept op
        (not op.walking
          && same_type op.mode get_request_pdu
          && (r.error_status == 2)
          && is_version1 op.device.version)
        _ _ (missing_object-IsKept op)
        (if-AreKept op
          ((r.error_status == 1) && ltb 1 op.batch && not (same_type op.mode set_request_pdu)) _ _
          (refl, refl, refl)
          (if-AreKept op (op.walking && (r.error_status == 2) && is_version1 op.device.version) _ _
            (refl, refl)
            (if-AreKept op
              (op.walking && (r.error_status == 1) && same_type op.mode get_bulk_request_pdu) _ _
              (refl, refl, refl)
              (if-AreKept op (r.error_status == 0) _ _ tt (
                refl,
                chosen_final (r.error_status == 1) capacity_exceeded protocol_error refl refl,
              ))))))

copy_value_final : (v : Container) → is_pending (copy_value v).0 ≡ false
unfolding copy_value set_bytes
copy_value_final (integer_type type v) = refl
copy_value_final (octet_type o) = ground arith
copy_value_final (raw_type type v) = ground arith
copy_value_final (oid_type text) = ground arith
copy_value_final null_type = refl
copy_value_final (network_address_type ip) = ground arith
copy_value_final (counter64_type v) = refl
copy_value_final (complex_type type vs) = refl

filled_final : (result : SnmpResult) (b : VarBind) → is_pending (filled result b).status ≡ false
unfolding filled
filled_final result b =
    chosen_final _ type_mismatch (copy_value b.value).0 refl (copy_value_final b.value)

-- No cell is pending.
abbrev AreSettled : List SnmpResult → Type 0
AreSettled [] = Unit
AreSettled (result ∷ rest) = (is_pending result.status ≡ false) × AreSettled rest

length-fill :
    (n : ℕ) (results : List SnmpResult) (binds : List VarBind)
    → length (fill n results binds) ≡ length results
unfolding fill
length-fill zero results binds = refl
length-fill (suc n) [] binds = refl
length-fill (suc n) (result ∷ results) [] = refl
length-fill (suc n) (result ∷ results) (b ∷ binds) = ap suc (length-fill n results binds)

length-fill_from :
    (offset n : ℕ) (results : List SnmpResult) (binds : List VarBind)
    → length (fill_from offset n results binds) ≡ length results
length-fill_from zero n results binds = length-fill n results binds
length-fill_from (suc offset) n [] binds = refl
length-fill_from (suc offset) n (result ∷ results) binds =
    ap suc (length-fill_from offset n results binds)

-- The only cell of a single read is filled by the reply that completes it.
single_settled :
    (offset n : ℕ) (results : List SnmpResult) (binds : List VarBind)
    → 0 < n
    → offset + n ≡ length results
    → length results ≡ 1
    → names_agree n (drop offset results) binds ≡ true
    → AreSettled (fill_from offset n results binds)
unfolding names_agree fill
single_settled offset zero results binds h e one agree = absurd (omega arith)
single_settled (suc offset) (suc n) results binds h e one agree = absurd (omega (arith, e, one))
single_settled zero (suc n) [] binds h e one agree = absurd (omega (arith, e))
single_settled zero (suc n) (result ∷ (other ∷ more)) binds h e one agree =
    absurd (omega (arith, one))
single_settled zero (suc n) (result ∷ []) [] h e one agree = cc
single_settled zero (suc zero) (result ∷ []) (b ∷ binds) h e one agree = (filled_final result b, tt)
single_settled zero (suc (suc n)) (result ∷ []) (b ∷ binds) h e one agree =
    absurd (omega (arith, e))

overall_final :
    (count : ℕ) (results : List SnmpResult) (status : Status)
    → is_pending status ≡ false
    → ((count == 1) ≡ true → AreSettled results)
    → is_pending (overall count results status) ≡ false
unfolding overall
overall_final count [] status h single = h
overall_final count (result ∷ rest) status h single =
    overall_final count rest _
      (next (is_ok result.status) (count == 1) result.status (λ e. (single e).0))
      (λ e. (single e).1)
  where
    next :
        (ok one : Bool) (s : Status)
        → (one ≡ true → is_pending s ≡ false)
        → is_pending (if ok then status else if one then s else partial) ≡ false
    next true one s k = h
    next false true s k = k refl
    next false false s k = refl

pub query_verdict-IsKept :
    (op : Operation) (binds : List VarBind) → 0 < op.batch → IsKept op (query_verdict op binds)
unfolding query_verdict
query_verdict-IsKept op binds asked =
    let results = fill_from op.offset op.batch op.results binds in
    if-IsKept op (not (names_agree op.batch (drop op.offset op.results) binds)) _ _
      (λ e. (refl, refl))
      (λ agree.
        if-IsKept op (op.offset + op.batch == length op.results) _ _
          (λ whole. (
            refl,
            overall_final (length results) results success refl (λ one.
                single_settled op.offset op.batch op.results binds asked ((==_iff _ _).0 whole)
                  (sym (length-fill_from op.offset op.batch op.results binds) ∙ (==_iff _ _).0 one)
                  (agreed _ agree)),
          ))
          (λ e. (refl, refl, refl)))
  where
    agreed : (b : Bool) → not b ≡ false → b ≡ true
    agreed true e = refl
    agreed false e = cc
