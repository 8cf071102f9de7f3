-- ===== src/Client/Poll.antt =====
-- libEGD-master/src/egd/client/egd_client.cpp, `PollSocket`: what a subscriber does with each
-- datagram. The config objects stand behind an interface, since the loop goes through the handle
-- in a page and the virtual `Read`.
pub mod Dispatch
pub mod Receive
use auroralink.Prelude.{
  ℕ, ◌+◌, ◌-◌, ◌%◌, ◌^◌, min, Text, Bool, ◌&&◌, ◌==◌, List, [], ◌∷◌, ◌++◌, length, take,
  if◌then◌else◌, ltb,
}
use auroralink.Status.{EgdStatus, ok, err_signature_mismatch, is_ok}
use auroralink.Bytes.{write_at}
use auroralink.Spec.{DataProductionHdr, DataProductionMessage, read_message, message_size, hdr_size}
use auroralink.Config.Types.{EgdPageInfo}
use auroralink.Client.Types.{EgdSubCallbackInfo}

-- The config objects, by handle: `Read`, and `GetPageInfo` into a page that is there.
pub record ConfigService : Type 1 where
  pub Configs : Type 0
  pub read_config : Configs → ℕ → ℕ → Configs × EgdStatus
  pub page_info_of : Configs → ℕ → Text → EgdPageInfo → EgdPageInfo × EgdStatus

-- One call of a user's callback, with its arguments.
pub record Invocation : Type 0 where
  pub callback : ℕ
  pub page_info : EgdPageInfo
  pub header : DataProductionHdr
  pub status : EgdStatus
  pub payload : List ℕ
  pub data_len : ℕ
  pub user_data : ℕ

-- What `recvfrom` leaves in the local message, whose memory held `stack`: the datagram, cut at
-- the message's size, over it.
unfoldable pub received_message : List ℕ → List ℕ → DataProductionMessage
unfolding write_at read_message
received_message stack datagram = read_message (write_at stack 0 (take message_size datagram))

abbrev pub received_length : List ℕ → ℕ
received_length datagram = min message_size (length datagram)

-- `length - sizeof(message.Hdr)`, a `size_t`.
unfoldable pub data_length_of : ℕ → ℕ
data_length_of received = (received + 2 ^ 64 - hdr_size) % 2 ^ 64

-- `header.ProducerID == page_info.producer_id && header.ExchangeID == page_info.exchange_id`
unfoldable pub cares_about : DataProductionHdr → EgdPageInfo → Bool
cares_about h page = (h.producer_id == page.producer_id) && (h.exchange_id == page.exchange_id)

-- The rounds of the loop that run before `run_flag_` is false: `poll` has nothing, `recvfrom` fails,
-- or a datagram comes, into memory that held the first list.
pub data Round : Type 0 where
  no_event : Round
  receive_error : Round
  arrival : List ℕ → List ℕ → Round

-- `c_string` is what a C string reads at a block that holds the given bytes: the library
-- allocates a page's name without the zero byte that would end it.
module _ (service : ConfigService) (c_string : Text → Text) where
  open service use {Configs, read_config, page_info_of}

  -- The two nested tests behind a `Read` that succeeded.
  unfoldable pub renew_page : Configs → DataProductionHdr → EgdPageInfo → EgdPageInfo × EgdStatus
  renew_page cs h page =
      let (page', status) = page_info_of cs page.config_handle (c_string page.page_name) page in
      if is_ok status
      then (if h.signature == page'.signature
          then (page', status)
          else (page', err_signature_mismatch))
      else (page', status)

  -- A header whose signature is not the page's makes the config be read again.
  unfoldable pub check_signature :
      Configs → DataProductionHdr → EgdPageInfo → Configs × EgdPageInfo × EgdStatus
  unfolding renew_page
  check_signature cs h page =
      let (cs', status) = read_config cs page.config_handle page.producer_id in
      let (page', status') = renew_page cs' h page in
      if h.signature == page.signature
      then (cs, page, ok)
      else (if is_ok status then (cs', page', status') else (cs', page, status))

  -- One callback of the loop. The page that it keeps is the one that was renewed.
  unfoldable pub visit :
      Configs
      → DataProductionMessage
      → ℕ
      → EgdSubCallbackInfo
      → Configs × EgdSubCallbackInfo × List Invocation
  unfolding check_signature cares_about
  visit cs m data_len cb =
      let (cs', page, status) = check_signature cs m.hdr cb.page_info in
      let call : Invocation = record {
        callback = cb.callback;
        page_info = page;
        header = m.hdr;
        status = status;
        payload = m.payload;
        data_len = data_len;
        user_data = cb.user_data;
      } in
      if cares_about m.hdr cb.page_info
      then (cs', record cb { page_info = page }, call ∷ [])
      else (cs, cb, [])

  unfoldable pub dispatch :
      Configs
      → DataProductionMessage
      → ℕ
      → List EgdSubCallbackInfo
      → Configs × List EgdSubCallbackInfo × List Invocation
  unfolding visit
  dispatch cs m data_len [] = (cs, [], [])
  dispatch cs m data_len (cb ∷ cbs) =
      let (cs₁, cb', call) = visit cs m data_len cb in
      let (cs₂, cbs', calls) = dispatch cs₁ m data_len cbs in (cs₂, cb' ∷ cbs', call ++ calls)

  -- One datagram; an empty one, like an error of `recvfrom`, is ignored.
  unfoldable pub receive :
      Configs
      → List ℕ
      → List ℕ
      → List EgdSubCallbackInfo
      → Configs × List EgdSubCallbackInfo × List Invocation
  unfolding dispatch received_message data_length_of
  receive cs stack datagram cbs =
      if ltb 0 (received_length datagram)
      then dispatch cs (received_message stack datagram) (data_length_of (received_length datagram))
          cbs
      else (cs, cbs, [])

  unfoldable pub poll_round :
      Configs
      → Round
      → List EgdSubCallbackInfo
      → Configs × List EgdSubCallbackInfo × List Invocation
  unfolding receive
  poll_round cs no_event cbs = (cs, cbs, [])
  poll_round cs receive_error cbs = (cs, cbs, [])
  poll_round cs (arrival stack datagram) cbs = receive cs stack datagram cbs

  unfoldable pub poll_socket :
      Configs
      → List Round
      → List EgdSubCallbackInfo
      → Configs × List EgdSubCallbackInfo × List Invocation
  unfolding poll_round
  poll_socket cs [] cbs = (cs, cbs, [])
  poll_socket cs (r ∷ rs) cbs =
      let (cs₁, cbs₁, calls₁) = poll_round cs r cbs in
      let (cs₂, cbs₂, calls₂) = poll_socket cs₁ rs cbs₁ in (cs₂, cbs₂, calls₁ ++ calls₂)
