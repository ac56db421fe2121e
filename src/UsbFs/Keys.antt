-- ===== src/UsbFs/Keys.antt =====
-- The board looks up no packet that has no record.
use protocol_emulator.Base.{
  ℕ, zero, suc, ◌≡◌, ◌⊎◌, refl, ap, sym, Bool, true, false, ◌&&◌, ◌||◌, not, Option, none, some,
  List, [], ◌∷◌, ◌++◌, arith, bit_and, bit_or, get_or, length, get_elem?, All, ◌==◌, if◌then◌else◌,
  Bool-cases, Option-cases, inl, inr, subst,
}
use protocol_emulator.Base.Bits.{shr, shl}
use protocol_emulator.UsbFs.Packets.{
  data0, data1, stall_packet, tag_acked, tag_noack, report_kind, data_packet, in_token,
}
use protocol_emulator.UsbFs.Records.{Records, same, find}
use protocol_emulator.UsbFs.Board.{
  Board, Flight, send, all_known, answer, take_request, setup, setup_bytes, take_word, acked,
  not_acked, take_tag, handle, report, feed,
}

-- The packet has a record.
abbrev pub Knows : Records → List ℕ → Type 0
Knows records packet = (at : ℕ) × (find records packet ≡ some at)

abbrev pub KnowsReport : Records → List ℕ → Type 0
KnowsReport records payload =
    Knows records (data_packet data0 payload) × Knows records (data_packet data1 payload)

abbrev pub KnowsFlight : Records → Option Flight → Type 0
KnowsFlight records none = Unit {0}
KnowsFlight records (some flight) = Knows records flight.packet

-- Every packet that may have to be sent is known.
pub record Ready (records : Records) (reports : List (List ℕ)) (toggle : ℕ) (queue : List (List ℕ))
    (inflight : Option Flight) : Type 0 where
  pub knows_stall : Knows records stall_packet
  pub knows_empty : Knows records (data_packet data1 [])
  pub knows_reports : All (KnowsReport records) reports
  pub toggled : (toggle ≡ data0) ⊎ (toggle ≡ data1)
  pub knows_queue : All (Knows records) queue
  pub knows_flight : KnowsFlight records inflight

abbrev pub Known : Board → Type 0
Known b = Ready b.records b.reports b.report_toggle b.queue b.inflight

-- The call raises no `KeyError`, and the board that it leaves is as ready.
pub data Keeps : Option Board → Type 0 where
  keeps : {b : Board} → Known b → Keeps (some b)

-- What is in flight may be any packet that is known.
Ready-flight :
    {records : Records} {reports : List (List ℕ)} {toggle : ℕ} {queue : List (List ℕ)}
    {inflight : Option Flight} (flight : Option Flight)
    → Ready records reports toggle queue inflight
    → KnowsFlight records flight
    → Ready records reports toggle queue flight
Ready-flight flight v k = record {
  knows_stall = v.knows_stall;
  knows_empty = v.knows_empty;
  knows_reports = v.knows_reports;
  toggled = v.toggled;
  knows_queue = v.knows_queue;
  knows_flight = k;
}

Ready-queue :
    {records : Records} {reports : List (List ℕ)} {toggle : ℕ} {queue : List (List ℕ)}
    {inflight : Option Flight} (packets : List (List ℕ))
    → Ready records reports toggle queue inflight
    → All (Knows records) packets
    → Ready records reports toggle packets inflight
Ready-queue packets v k = record {
  knows_stall = v.knows_stall;
  knows_empty = v.knows_empty;
  knows_reports = v.knows_reports;
  toggled = v.toggled;
  knows_queue = k;
  knows_flight = v.knows_flight;
}

toggled-Ready :
    {records : Records} {reports : List (List ℕ)} {toggle : ℕ} {queue : List (List ℕ)}
    {inflight : Option Flight}
    → Ready records reports toggle queue inflight
    → Ready records reports (if toggle == data0 then data1 else data0) queue inflight
toggled-Ready {toggle = toggle} v = record {
  knows_stall = v.knows_stall;
  knows_empty = v.knows_empty;
  knows_reports = v.knows_reports;
  toggled = elim (Bool-cases (toggle == data0)) [
    | inl e ↦ rw e (inr refl)
    | inr e ↦ rw e (inl refl)
  ];
  knows_queue = v.knows_queue;
  knows_flight = v.knows_flight;
}

send-Keeps :
    (endpoint : ℕ) (packet behind : List ℕ) (b : Board)
    → Known b
    → Knows b.records packet
    → Keeps (send endpoint packet behind b)
unfolding send
send-Keeps endpoint packet behind b v (at, e) = rw (send, e) (keeps (Ready-flight _ v (at, e)))

known_first :
    (o : Option ℕ) (rest : Bool)
    → (elim o [ none ↦ false | some _ ↦ rest ]) ≡ true
    → ((at : ℕ) × (o ≡ some at)) × (rest ≡ true)
known_first none rest e = elim (clash e) [ ]
  where
    clash : false ≡ true → ⊥
    clash e = ground arith
known_first (some at) rest e = ((at, refl), e)

all_known-All :
    (records : Records) (packets : List (List ℕ))
    → all_known records packets ≡ true
    → All (Knows records) packets
unfolding all_known
all_known-All records [] e = tt
all_known-All records (packet ∷ packets) e =
    let (first, rest) = known_first (find records packet) (all_known records packets) e in
    (first, all_known-All records packets rest)

answer-Keeps : (packets : List (List ℕ)) (b : Board) → Known b → Keeps (answer packets b)
unfolding answer
answer-Keeps [] b v = send-Keeps 0 stall_packet [] b v v.knows_stall
answer-Keeps (packet ∷ packets) b v = elim (Bool-cases (all_known b.records (packet ∷ packets))) [
  | inl e ↦
      let (known, rest) = all_known-All b.records (packet ∷ packets) e in
      rw e
        (send-Keeps 0 packet [] (record b { queue = packets }) (Ready-queue packets v rest) known)
  | inr e ↦ rw e (send-Keeps 0 stall_packet [] b v v.knows_stall)
]

take_request-Keeps :
    (request_type request value asked : ℕ) (b : Board)
    → Known b
    → Keeps (take_request request_type request value asked b)
unfolding take_request
take_request-Keeps request_type request value asked b v = elim (Bool-cases (request == 6)) [
  | inl e ↦ rw e (
      answer-Keeps _
        (record b { queue = []; described = b.described || (shr value 8 == report_kind) })
        (Ready-queue [] v tt))
  | inr e ↦ rw e (elim (Bool-cases (not (bit_and request_type 0x80 == 0))) [
    | inl f ↦
        rw f (
          send-Keeps 0 stall_packet [] (record b { queue = [] }) (Ready-queue [] v tt)
            v.knows_stall)
    | inr f ↦ rw f (elim (Bool-cases (request == 5)) [
      | inl g ↦ rw g (
          addressed _ value (
            send-Keeps 0 (data_packet data1 []) (in_token value 0 ∷ []) (record b { queue = [] })
              (Ready-queue [] v tt) v.knows_empty))
      | inr g ↦ rw g (
          send-Keeps 0 (data_packet data1 []) []
            (record b {
              queue = [];
              configured = if request == 9 then not (value == 0) else b.configured;
            })
            (Ready-queue [] v tt) v.knows_empty)
    ])
  ])
]
  where
    addressed :
        (o : Option Board) (value : ℕ)
        → Keeps o
        → Keeps (elim o [ none ↦ none | some b' ↦ some (record b' { address = value }) ])
    addressed _ value (keeps k) = keeps k

setup-Keeps : (bytes : List ℕ) (b : Board) → Known b → Keeps (setup bytes b)
unfolding setup
setup-Keeps bytes b v =
    let request_type : ℕ = get_or bytes 0 0 in
    let request : ℕ = get_or bytes 1 0 in
    let value : ℕ = bit_or (get_or bytes 2 0) (shl (get_or bytes 3 0) 8) in
    let index : ℕ = bit_or (get_or bytes 4 0) (shl (get_or bytes 5 0) 8) in
    let asked : ℕ = bit_or (get_or bytes 6 0) (shl (get_or bytes 7 0) 8) in
    take_request-Keeps request_type request value asked
      (record b { log = b.log ++ (request_type ∷ request ∷ value ∷ index ∷ asked ∷ []) ∷ [] }) v

take_word-Keeps :
    (word : ℕ) (collected : List ℕ) (b : Board) → Known b → Keeps (take_word word collected b)
unfolding take_word
take_word-Keeps word collected b v = elim (Bool-cases (length (collected ++ word ∷ []) == 5)) [
  | inl e ↦
      rw e (setup-Keeps (setup_bytes (collected ++ word ∷ [])) (record b { collect = none }) v)
  | inr e ↦ rw e (keeps v)
]

next_queued :
    (b : Board) (queue : List (List ℕ))
    → Known (record b { inflight = none })
    → All (Knows b.records) queue
    → Keeps (elim queue [
      | [] ↦ some (record b { inflight = none })
      | packet ∷ packets ↦ send 0 packet [] (record b { inflight = none; queue = packets })
    ])
next_queued b [] v k = keeps v
next_queued b (packet ∷ packets) v k =
    send-Keeps 0 packet [] (record b { inflight = none; queue = packets })
      (Ready-queue packets v k.1) k.0

acked-Keeps : (flight : Flight) (b : Board) → Known b → Keeps (acked flight b)
unfolding acked
acked-Keeps flight b v = elim (Bool-cases (flight.endpoint == 1)) [
  | inl e ↦ rw e (keeps (toggled-Ready (Ready-flight none v tt)))
  | inr e ↦ rw e (next_queued b b.queue (Ready-flight none v tt) v.knows_queue)
]

not_acked-Keeps :
    (flight : Flight) (b : Board)
    → Known b
    → Knows b.records flight.packet
    → Keeps (not_acked flight b)
unfolding not_acked
not_acked-Keeps flight b v k = elim (Bool-cases (same flight.packet stall_packet)) [
  | inl e ↦ rw e (keeps (Ready-flight none v tt))
  | inr e ↦ rw e (
      send-Keeps flight.endpoint flight.packet flight.behind (record b { inflight = none })
        (Ready-flight none v tt) k)
]

take_tag-Keeps : (word : ℕ) (b : Board) → Known b → Keeps (take_tag word b)
unfolding take_tag
take_tag-Keeps word b v = elim (Option-cases b.inflight) [
  | inl n ↦ rw (take_tag, n) (keeps v)
  | inr (flight, n) ↦
      let known : Knows b.records flight.packet =
        subst (λ f. KnowsFlight b.records f) n v.knows_flight in
      rw (take_tag, n)
        (elim (Bool-cases (word == tag_acked)) [
          | inl e ↦ rw e (acked-Keeps flight b v)
          | inr e ↦ rw e (elim (Bool-cases (word == tag_noack)) [
            | inl f ↦ rw f (not_acked-Keeps flight b v known)
            | inr f ↦ rw f (keeps v)
          ])
        ])
]

handle-Keeps : (word : ℕ) (b : Board) → Known b → Keeps (handle word b)
unfolding handle
handle-Keeps word b v = elim (Option-cases b.collect) [
  | inr (collected, e) ↦ rw (handle, e) (take_word-Keeps word collected b v)
  | inl e ↦
      rw (handle, e)
        (elim (Bool-cases ((bit_and word 0xff == data0) || (bit_and word 0xff == data1))) [
          | inl f ↦ rw f (keeps v)
          | inr f ↦ rw f (take_tag-Keeps word b v)
        ])
]

abbrev payload_or : Option (List ℕ) → List ℕ
payload_or none = []
payload_or (some payload) = payload

report_known :
    (records : Records) (reports : List (List ℕ)) (n toggle : ℕ) (payload : List ℕ)
    → All (KnowsReport records) reports
    → (toggle ≡ data0) ⊎ (toggle ≡ data1)
    → get_elem? reports n ≡ some payload
    → Knows records (data_packet toggle payload)
report_known records [] n toggle payload k t e = elim (clash e) [ ]
  where
    clash : get_elem? {A = List ℕ} [] n ≡ some payload → ⊥
    clash e = ground arith
report_known records (x ∷ reports) zero toggle payload k t e =
    let same_payload : x ≡ payload = ap (λ o. payload_or o) e in
    elim t [ inl h ↦ rw (h, sym same_payload) k.0.0 | inr h ↦ rw (h, sym same_payload) k.0.1 ]
report_known records (x ∷ reports) (suc n) toggle payload k t e =
    report_known records reports n toggle payload k.1 t e

report-Keeps : (b : Board) → Known b → Keeps (report b)
unfolding report
report-Keeps b v = elim (Option-cases b.inflight) [
  | inr (flight, n) ↦ rw (report, n) (keeps v)
  | inl n ↦
      rw (report, n)
        (elim (Bool-cases ((length b.queue == 0) && b.described)) [
          | inr e ↦ rw e (keeps v)
          | inl e ↦ rw e (elim (Option-cases (get_elem? b.reports b.next_report)) [
            | inl m ↦ rw m (keeps v)
            | inr (payload, m) ↦ rw m (
                send-Keeps 1 (data_packet b.report_toggle payload) [] b v (
                  report_known b.records b.reports b.next_report b.report_toggle payload
                    v.knows_reports v.toggled m))
          ])
        ])
]

-- No word makes the board look up a packet that has no record.
pub feed-Keeps : (word : ℕ) (b : Board) → Known b → Keeps (feed word b)
unfolding feed
feed-Keeps word b v = then_report (handle word b) (handle-Keeps word b v)
  where
    then_report :
        (o : Option Board) → Keeps o → Keeps (elim o [ none ↦ none | some b' ↦ report b' ])
    then_report _ (keeps k) = report-Keeps _ k
