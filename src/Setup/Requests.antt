-- ===== src/Setup/Requests.antt =====
-- sccp_device.c, handle_msg_state_common: the messages of a phone that the configuration answers.
use wazo_libsccp.Common.{ℕ}
use wazo_libsccp.Device.Types.{Device}
use wazo_libsccp.Device.Dial.{CallSetup}
use wazo_libsccp.Setup.Types.{Configs, Phone}
use wazo_libsccp.Setup.Register.{
  transmit_button_template_res, transmit_config_status_res, handle_msg_feature_status_req,
  handle_msg_line_status_req, handle_msg_speeddial_status_req, handle_msg_stimulus,
}

-- The messages, with the fields that are read.
pub data Request : Type 0 where
  config_status_req button_template_req : Request
  speeddial_stat_req : (index : ℕ) → Request
  feature_status_req line_status_req : (instance_ : ℕ) → Request
  stimulus : (stimulus line_instance : ℕ) → Request

unfoldable pub handle_request : Configs → CallSetup → Phone → Request → Device → Device
unfolding transmit_button_template_res transmit_config_status_res handle_msg_feature_status_req
    handle_msg_line_status_req handle_msg_speeddial_status_req handle_msg_stimulus
handle_request C setup p config_status_req d = transmit_config_status_res p d
handle_request C setup p button_template_req d = transmit_button_template_res p d
handle_request C setup p (speeddial_stat_req index) d = handle_msg_speeddial_status_req C p index d
handle_request C setup p (feature_status_req i) d = handle_msg_feature_status_req C p i d
handle_request C setup p (line_status_req i) d = handle_msg_line_status_req C p i d
handle_request C setup p (stimulus s i) d = handle_msg_stimulus C setup p s i d
