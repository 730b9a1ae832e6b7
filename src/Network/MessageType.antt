-- ===== src/Network/MessageType.antt =====
-- MessageType of DataBackup/network/internal.hpp. A frame carries any value of uint16_t as its type;
-- the enumerators are these.
use backup_system.Base.{ℕ}

abbrev pub register_request : ℕ
register_request = 1

abbrev pub register_response : ℕ
register_response = 2

abbrev pub login_start : ℕ
login_start = 3

abbrev pub login_challenge : ℕ
login_challenge = 4

abbrev pub login_proof : ℕ
login_proof = 5

abbrev pub login_response : ℕ
login_response = 6

abbrev pub upload_start : ℕ
upload_start = 10

abbrev pub upload_ready : ℕ
upload_ready = 11

abbrev pub upload_chunk : ℕ
upload_chunk = 12

abbrev pub upload_end : ℕ
upload_end = 13

abbrev pub upload_result : ℕ
upload_result = 14

abbrev pub upload_delta_start : ℕ
upload_delta_start = 15

abbrev pub upload_base_hashes : ℕ
upload_base_hashes = 16

abbrev pub upload_base_end : ℕ
upload_base_end = 17

abbrev pub upload_copy : ℕ
upload_copy = 18

abbrev pub list_request : ℕ
list_request = 20

abbrev pub list_response : ℕ
list_response = 21

abbrev pub download_request : ℕ
download_request = 30

abbrev pub download_start : ℕ
download_start = 31

abbrev pub download_chunk : ℕ
download_chunk = 32

abbrev pub download_end : ℕ
download_end = 33

abbrev pub delete_account_request : ℕ
delete_account_request = 40

abbrev pub delete_account_response : ℕ
delete_account_response = 41

abbrev pub error : ℕ
error = 255
