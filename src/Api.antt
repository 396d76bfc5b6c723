-- ===== src/Api.antt =====
-- The API's records, frontend/src/api/types.ts. Amounts arrive as strings. The two dates of a
-- billing period are calendar days here: the API sends them as `YYYY-MM-DD`, and the reading of
-- that text into a day is the language's `Date`.
use energlens.Common.{ℕ, Text, Option, List, Bool}
use energlens.Calendar.{Date}

pub data UtilityType : Type 0 where
  electricity gas water : UtilityType

pub data BillSource : Type 0 where
  manual script ai : BillSource

pub data DocumentType : Type 0 where
  invoice credit_note : DocumentType

pub data ReadMethod : Type 0 where
  actual self_read estimated regularisation mixed : ReadMethod

-- The taxonomy that a line of charges is grouped by.
pub data ChargeKind : Type 0 where
  energy supply transmission distribution system_services cogeneration : ChargeKind
  green_certificates capacity levy excise vat standing_charge : ChargeKind
  reactive_energy metering discount balance other : ChargeKind

pub record User : Type 0 where
  pub id : Text
  pub email : Text
  pub is_active : Bool
  pub is_verified : Bool

pub record Place : Type 0 where
  pub id : Text
  pub name : Text
  pub address_line1 : Text
  pub address_line2 : Option Text
  pub city : Text
  pub region : Option Text
  pub postal_code : Text
  pub country_code : Text
  pub currency_code : Text
  pub created_at : Text
  pub updated_at : Text

pub record Bill : Type 0 where
  pub id : Text
  pub place_id : Text
  pub utility_type : UtilityType
  pub period_start : Date
  pub period_end : Date
  pub consumption : Option Text
  pub unit : Text
  pub unit_price : Option Text
  pub fixed_charges : Option Text
  pub taxes : Option Text
  pub total_amount : Text
  pub currency_code : Text
  pub provider_name : Option Text
  pub raw_file_ref : Option Text
  pub source : BillSource
  pub notes : Option Text
  pub provider_invoice_series : Option Text
  pub provider_invoice_number : Option Text
  pub issued_on : Option Text
  pub due_on : Option Text
  pub net_amount : Option Text
  pub vat_base : Option Text
  pub vat_rate : Option Text
  pub vat_amount : Option Text
  pub balance_brought_forward : Option Text
  pub total_due : Option Text
  pub read_method : Option ReadMethod
  pub document_type : DocumentType
  pub corrects_bill_id : Option Text
  pub customer_code : Option Text
  pub provider_tax_id : Option Text
  pub document_id : Option Text
  pub created_at : Text
  pub updated_at : Text

-- A stored PDF of a bill; `none` for the pages of one that could not be parsed.
pub record BillDocument : Type 0 where
  pub id : Text
  pub place_id : Text
  pub sha256 : Text
  pub filename : Text
  pub media_type : Text
  pub byte_size : ℕ
  pub page_count : Option ℕ
  pub uploaded_by : Text
  pub created_at : Text

pub record SeriesPoint (F : Type 0) : Type 0 where
  pub period : Text
  pub value : F

pub record CompareSeries (F : Type 0) : Type 0 where
  pub place_id : Text
  pub place_name : Text
  pub currency_code : Text
  pub points : List (SeriesPoint F)
