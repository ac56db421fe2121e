-- ===== src/UsbFs/Board.antt =====
-- python/usb_fs_board.py: `Board`. A call is none where it raises a `KeyError`.
use protocol_emulator.Base.{
  ℕ, suc, Bool, true, false, ◌&&◌, ◌||◌, not, Option, none, some, List, [], ◌∷◌, ◌++◌, bit_and,
  bit_or, length, take, get_or, get_elem?, ◌==◌, if◌then◌else◌,
}
use protocol_emulator.Base.Bits.{shr, shl}
use protocol_emulator.UsbFs.Packets.{
  data0, data1, stall_packet, tag_acked, tag_noack, report_kind, data_packet, in_token, chunks,
}
use protocol_emulator.UsbFs.Records.{Layout, Descriptors, Records, same, find}

-- `inflight`: the endpoint, the packet, and the words behind the reply.
pub record Flight : Type 0 where
  pub endpoint : ℕ
  pub packet : List ℕ
  pub behind : List ℕ

pub record Board : Type 0 where
  pub descriptors : Descriptors
  pub records : Records
  pub reports : List (List ℕ)
  pub address : ℕ
  pub configured : Bool
  pub described : Bool
  pub collect : Option (List ℕ)
  pub queue : List (List ℕ)
  pub inflight : Option Flight
  pub out : List (List ℕ)
  pub report_toggle : ℕ
  pub next_report : ℕ
  pub log : List (List ℕ)

-- `reset`
unfoldable pub reset : Board → Board
reset b = record {
  descriptors = b.descriptors;
  records = b.records;
  reports = b.reports;
  address = 0;
  configured = false;
  described = false;
  collect = none;
  queue = [];
  inflight = none;
  out = [];
  report_toggle = data0;
  next_report = 0;
  log = [];
}

-- `Board(descriptors, reports)`, once the layout is made.
unfoldable pub new_board : Descriptors → List (List ℕ) → Layout → Board
new_board descriptors reports made = record {
  descriptors = descriptors;
  records = made.records;
  reports = reports;
  address = 0;
  configured = false;
  described = false;
  collect = none;
  queue = [];
  inflight = none;
  out = [];
  report_toggle = data0;
  next_report = 0;
  log = [];
}

-- `_send`
unfoldable pub send : ℕ → List ℕ → List ℕ → Board → Option Board
send endpoint packet behind b = elim (find b.records packet) [
  | none ↦ none
  | some at ↦ some (record b {
    inflight = some (record { endpoint = endpoint; packet = packet; behind = behind });
    out = b.out ++ (in_token b.address endpoint ∷ at ∷ behind) ∷ [];
  })
]

-- `descriptors.get((kind, index))`
unfoldable pub descriptor : Descriptors → ℕ → ℕ → Option (List ℕ)
descriptor [] kind index = none
descriptor (((k, i), bytes) ∷ descriptors) kind index =
    if (k == kind) && (i == index) then some bytes else descriptor descriptors kind index

-- `all(bytes(p) in self.records for p in packets)`
unfoldable pub all_known : Records → List (List ℕ) → Bool
all_known records [] = true
all_known records (packet ∷ packets) = elim (find records packet) [
  | none ↦ false
  | some _ ↦ all_known records packets
]

-- The packets that a GET_DESCRIPTOR is answered with, where there are any.
unfoldable pub answer_packets : Option (List ℕ) → ℕ → List (List ℕ)
answer_packets none asked = []
answer_packets (some bytes) asked = chunks bytes asked

-- GET_DESCRIPTOR: a descriptor that is not there, or a length no record is prepared for, is stalled.
unfoldable pub answer : List (List ℕ) → Board → Option Board
unfolding all_known
answer [] b = send 0 stall_packet [] b
answer (packet ∷ packets) b =
    if all_known b.records (packet ∷ packets)
    then send 0 packet [] (record b { queue = packets })
    else send 0 stall_packet [] b

-- `_setup`, of a SETUP's fields.
unfoldable pub take_request : ℕ → ℕ → ℕ → ℕ → Board → Option Board
unfolding answer answer_packets descriptor
take_request request_type request value asked b =
    if request == 6
    then answer (answer_packets (descriptor b.descriptors (shr value 8) (bit_and value 0xff)) asked)
        (record b { queue = []; described = b.described || (shr value 8 == report_kind) })
    else if not (bit_and request_type 0x80 == 0)
    then send 0 stall_packet [] (record b { queue = [] })
    else if request == 5
    then elim (send 0 (data_packet data1 []) (in_token value 0 ∷ []) (record b { queue = [] })) [
      | none ↦ none
      | some b' ↦ some (record b' { address = value })
    ]
    else send 0 (data_packet data1 []) [] (record b {
      queue = [];
      configured = if request == 9 then not (value == 0) else b.configured;
    })

unfoldable pub setup : List ℕ → Board → Option Board
unfolding take_request
setup bytes b =
    let request_type = get_or bytes 0 0 in
    let request = get_or bytes 1 0 in
    let value = bit_or (get_or bytes 2 0) (shl (get_or bytes 3 0) 8) in
    let index = bit_or (get_or bytes 4 0) (shl (get_or bytes 5 0) 8) in
    let asked = bit_or (get_or bytes 6 0) (shl (get_or bytes 7 0) 8) in
    take_request request_type request value asked
      (record b { log = b.log ++ (request_type ∷ request ∷ value ∷ index ∷ asked ∷ []) ∷ [] })

-- The bytes of the words behind the first.
unfoldable pub low_first : List ℕ → List ℕ
low_first [] = []
low_first (w ∷ words) = bit_and w 0xff ∷ shr w 8 ∷ low_first words

unfoldable pub setup_bytes : List ℕ → List ℕ
unfolding low_first
setup_bytes [] = []
setup_bytes (w ∷ words) = take 8 (shr w 8 ∷ low_first words)

-- A word of a SETUP that is being collected.
unfoldable pub take_word : ℕ → List ℕ → Board → Option Board
unfolding setup setup_bytes
take_word word collected b =
    let words = collected ++ word ∷ [] in
    if length words == 5
    then setup (setup_bytes words) (record b { collect = none })
    else some (record b { collect = some words })

-- TAG_ACKED, of what was in flight.
unfoldable pub acked : Flight → Board → Option Board
acked flight b =
    let b' : Board = record b { inflight = none } in
    if flight.endpoint == 1
    then some (record b' {
      report_toggle = if b.report_toggle == data0 then data1 else data0;
      next_report = suc b.next_report;
    })
    else elim b.queue [
      | [] ↦ some b'
      | packet ∷ packets ↦ send 0 packet [] (record b' { queue = packets })
    ]

-- TAG_NOACK: it is sent again, unless it was a STALL.
unfoldable pub not_acked : Flight → Board → Option Board
not_acked flight b =
    if same flight.packet stall_packet
    then some (record b { inflight = none })
    else send flight.endpoint flight.packet flight.behind (record b { inflight = none })

-- The two branches that need something in flight.
unfoldable pub take_tag : ℕ → Board → Option Board
unfolding acked not_acked
take_tag word b = elim b.inflight [
  | none ↦ some b
  | some flight ↦
      if word == tag_acked
      then acked flight b
      else if word == tag_noack
      then not_acked flight b
      else some b
]

-- `feed`, before its last line.
unfoldable pub handle : ℕ → Board → Option Board
unfolding take_word take_tag
handle word b = elim b.collect [
  | some collected ↦ take_word word collected b
  | none ↦
      if (bit_and word 0xff == data0) || (bit_and word 0xff == data1)
      then some (record b { collect = some (word ∷ []) })
      else take_tag word b
]

-- `_report`
unfoldable pub report : Board → Option Board
report b = elim b.inflight [
  | some _ ↦ some b
  | none ↦
      if (length b.queue == 0) && b.described
      then elim (get_elem? b.reports b.next_report) [
        | none ↦ some b
        | some payload ↦ send 1 (data_packet b.report_toggle payload) [] b
      ]
      else some b
]

unfoldable pub feed : ℕ → Board → Option Board
unfolding handle report
feed word b = elim (handle word b) [ none ↦ none | some b' ↦ report b' ]

-- `for word in ...: board.feed(word)`
unfoldable pub feed_all : List ℕ → Board → Option Board
feed_all [] b = some b
feed_all (word ∷ words) b = elim (feed word b) [ none ↦ none | some b' ↦ feed_all words b' ]
