-- ===== src/Requests/Services.antt =====
-- The requests of the services (frontend/src/features/subscriptions/services/subscriptionService.ts).
use Prim.Native.String
use bubllio_crm.Prelude.{String}
use bubllio_crm.Requests.{get, post, patch, Request, plain, organization_path, id_segment}

pub data CancelMode : Type 0 where
  end_of_period immediate : CancelMode

abbrev pub mode_name : CancelMode → String
mode_name end_of_period = "end_of_period"
mode_name immediate = "immediate"

-- `encode` is encodeURIComponent.
module _ (encode : String → String) where
  abbrev pub root : String → String
  root organization = String.◌++◌ (organization_path encode organization) "services/"

  abbrev pub catalog_path : String → String → String
  catalog_path organization rest = String.◌++◌ (root organization) (String.◌++◌ "catalog/" rest)

  abbrev pub subscription_path : String → String → String
  subscription_path organization rest =
      String.◌++◌ (root organization) (String.◌++◌ "subscriptions/" rest)

  abbrev pub list_catalog : String → Request
  list_catalog organization = plain (catalog_path organization "") get

  abbrev pub create_catalog_item : String → Request
  create_catalog_item organization = plain (catalog_path organization "") post

  abbrev pub update_catalog_item : String → String → Request
  update_catalog_item organization id =
      plain (catalog_path organization (id_segment encode id)) patch

  abbrev pub list_subscriptions : String → Request
  list_subscriptions organization = plain (subscription_path organization "") get

  abbrev pub create_subscription : String → Request
  create_subscription organization = plain (subscription_path organization "") post

  abbrev pub update_subscription : String → String → Request
  update_subscription organization id =
      plain (subscription_path organization (id_segment encode id)) patch

  -- The request that ends a subscription, and the mode that its body names.
  abbrev pub cancel_subscription : String → String → CancelMode → Request × String
  cancel_subscription organization id mode = (
    plain (subscription_path organization (String.◌++◌ (id_segment encode id) "end/")) post,
    mode_name mode,
  )

  abbrev pub resume_subscription : String → String → Request
  resume_subscription organization id =
      plain (subscription_path organization (String.◌++◌ (id_segment encode id) "resume/")) post

  abbrev pub pause_subscription : String → String → Request
  pause_subscription organization id =
      plain (subscription_path organization (String.◌++◌ (id_segment encode id) "pause/")) post

  abbrev pub overview : String → Request
  overview organization = plain (String.◌++◌ (root organization) "overview/") get

  abbrev pub list_charges : String → Request
  list_charges organization = plain (String.◌++◌ (root organization) "charges/") get

  abbrev pub record_payment : String → String → Request
  record_payment organization charge =
      plain
        (String.◌++◌ (root organization)
          (String.◌++◌ "charges/" (String.◌++◌ (id_segment encode charge) "payments/")))
        post
