-- ===== src/Delivery/Payload.antt =====
-- What `_deliver_claimed` of app/support_delivery.py hands to the transport: the addressing, the
-- check of a forwarded message's office, and the payload of each kind of message.
use ai_whats_app_shipment_as.Prelude.{
  ℕ, suc, String, Bool, true, false, ◌&&◌, ◌||◌, ◌⊎◌, inl, inr, Option, none, some, str_eq, truthy,
  if◌then◌else◌,
}

pub data Kind : Type 0 where
  text location image video document audio sticker : Kind

-- A file of the protected media store, without its bytes.
pub record Asset : Type 0 where
  pub mime_type : String
  pub filename : String

-- The message and its ticket, as `deliver` receives them. Coordinates are the texts that the row
-- holds; None is a null column.
pub record Draft : Type 0 where
  pub message_id : ℕ
  pub kind : Kind
  pub body : String
  pub latitude : Option String
  pub longitude : Option String
  pub location_name : Option String
  pub location_address : Option String
  pub delivery_token : Option String
  pub is_forwarded : Bool
  pub forwarded_from_ticket_id : Option ℕ
  pub business_phone_number_id : Option String

-- An exception on the way. A WhatsAppSendError says whether the outcome is in doubt.
pub record Raised : Type 0 where
  pub is_send_error : Bool
  pub delivery_uncertain : Bool
  pub provider_code : Option ℕ
  pub bridge_code : Option String

pub data Payload : Type 0 where
  text_payload : String → Payload
  location_payload : String → String → Option String → Option String → Payload
  media_payload : Kind → String → Option String → Bool → Option String → Payload

pub data Prepared : Type 0 where
  ready : Payload → Prepared
  broken : Raised → Prepared

-- ValueError or TypeError
abbrev pub plain_error : Raised
plain_error = record {
  is_send_error = false;
  delivery_uncertain = false;
  provider_code = none;
  bridge_code = none;
}

-- What lies outside the repository: the media store, the transport's upload of an asset with its
-- storage check, and the line of a forwarding source ticket.
pub record Services : Type 0 where
  pub asset : ℕ → Option Asset
  pub upload : Asset → Raised ⊎ String
  pub source_line : ℕ → Option String

-- `defaults`: the kinds that carry a caption, unless the body is their placeholder
unfoldable pub caption : Kind → String → Asset → Option String
caption Kind.image body asset = if str_eq body "Image" then none else some body
caption Kind.video body asset = if str_eq body "Video" then none else some body
caption Kind.document body asset =
    if str_eq body asset.filename || str_eq body "Document" then none else some body
caption _ body asset = none

abbrev is_voice : Kind → String → Bool
is_voice Kind.audio body = str_eq body "Voice note"
is_voice _ body = false

abbrev filename_of : Kind → Asset → Option String
filename_of Kind.document asset = some asset.filename
filename_of _ asset = none

media_prepared : Kind → String → Asset → Raised ⊎ String → Prepared
media_prepared kind body asset (inl raised) = broken raised
media_prepared kind body asset (inr media_id) = ready (
    media_payload kind media_id (caption kind body asset) (is_voice kind body)
      (filename_of kind asset))

from_asset : Services → Kind → String → Option Asset → Prepared
unfolding media_prepared
from_asset services kind body none = broken plain_error
from_asset services kind body (some asset) = media_prepared kind body asset (services.upload asset)

from_position : Draft → Option String → Option String → Prepared
from_position d (some latitude) (some longitude) =
    ready (location_payload latitude longitude d.location_name d.location_address)
from_position d _ _ = broken plain_error

unfoldable pub payload : Services → Draft → Prepared
unfolding from_asset from_position caption
payload services d = elim d.kind [
  | Kind.text ↦ ready (text_payload d.body)
  | Kind.location ↦ from_position d d.latitude d.longitude
  | kind ↦ from_asset services kind d.body (services.asset d.message_id)
]

-- a number that Python reads as false, or None
source_of : Services → Option ℕ → Option String
source_of services (some (suc id)) = services.source_line (suc id)
source_of services _ = none

-- a missing or empty line is None in `common`
abbrev line_of : Option String → Option String
line_of (some line) = if str_eq line "" then none else some line
line_of none = none

same_line : Option String → Option String → Bool
same_line (some source) (some line) = str_eq source line
same_line _ _ = false

-- A forwarded message goes out only through the office line of its source.
unfoldable pub office_matches : Services → Draft → Bool
unfolding source_of same_line
office_matches services d =
    if d.is_forwarded
    then (let source = source_of services d.forwarded_from_ticket_id in
        truthy source && same_line source (line_of d.business_phone_number_id))
    else true

unfoldable pub prepare : Services → Draft → Prepared
unfolding office_matches payload
prepare services d = if office_matches services d then payload services d else broken plain_error
