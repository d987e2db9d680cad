-- ===== src/Protocol/Codes.antt =====
-- The message codes and the limits of protocol.rs.
use forever.Prelude.{ℕ, ◌*◌}

abbrev pub login_code : ℕ
login_code = 1

abbrev pub set_wait_port_code : ℕ
set_wait_port_code = 2

abbrev pub get_peer_address_code : ℕ
get_peer_address_code = 3

abbrev pub watch_user_code : ℕ
watch_user_code = 5

abbrev pub unwatch_user_code : ℕ
unwatch_user_code = 6

abbrev pub user_status_code : ℕ
user_status_code = 7

abbrev pub say_chatroom_code : ℕ
say_chatroom_code = 13

abbrev pub join_room_code : ℕ
join_room_code = 14

abbrev pub leave_room_code : ℕ
leave_room_code = 15

abbrev pub user_joined_room_code : ℕ
user_joined_room_code = 16

abbrev pub user_left_room_code : ℕ
user_left_room_code = 17

abbrev pub connect_to_peer_code : ℕ
connect_to_peer_code = 18

abbrev pub message_user_code : ℕ
message_user_code = 22

abbrev pub message_acked_code : ℕ
message_acked_code = 23

abbrev pub file_search_code : ℕ
file_search_code = 26

abbrev pub wishlist_search_code : ℕ
wishlist_search_code = 103

abbrev pub wishlist_interval_code : ℕ
wishlist_interval_code = 104

abbrev pub set_status_code : ℕ
set_status_code = 28

abbrev pub server_ping_code : ℕ
server_ping_code = 32

abbrev pub shared_counts_code : ℕ
shared_counts_code = 35

abbrev pub user_stats_code : ℕ
user_stats_code = 36

abbrev pub relogged_code : ℕ
relogged_code = 41

abbrev pub user_interests_code : ℕ
user_interests_code = 57

abbrev pub room_list_code : ℕ
room_list_code = 64

abbrev pub privileged_users_code : ℕ
privileged_users_code = 69

abbrev pub have_no_parent_code : ℕ
have_no_parent_code = 71

abbrev pub embedded_message_code : ℕ
embedded_message_code = 93

abbrev pub accept_children_code : ℕ
accept_children_code = 100

abbrev pub possible_parents_code : ℕ
possible_parents_code = 102

abbrev pub parent_min_speed_code : ℕ
parent_min_speed_code = 83

abbrev pub parent_speed_ratio_code : ℕ
parent_speed_ratio_code = 84

abbrev pub send_upload_speed_code : ℕ
send_upload_speed_code = 121

abbrev pub branch_level_code : ℕ
branch_level_code = 126

abbrev pub branch_root_code : ℕ
branch_root_code = 127

abbrev pub reset_distributed_code : ℕ
reset_distributed_code = 130

abbrev pub excluded_search_phrases_code : ℕ
excluded_search_phrases_code = 160

abbrev pub cant_connect_to_peer_code : ℕ
cant_connect_to_peer_code = 1001

abbrev pub shared_file_list_request_code : ℕ
shared_file_list_request_code = 4

abbrev pub shared_file_list_response_code : ℕ
shared_file_list_response_code = 5

abbrev pub file_search_response_code : ℕ
file_search_response_code = 9

abbrev pub user_info_request_code : ℕ
user_info_request_code = 15

abbrev pub user_info_response_code : ℕ
user_info_response_code = 16

abbrev pub folder_contents_request_code : ℕ
folder_contents_request_code = 36

abbrev pub folder_contents_response_code : ℕ
folder_contents_response_code = 37

abbrev pub transfer_request_code : ℕ
transfer_request_code = 40

abbrev pub transfer_response_code : ℕ
transfer_response_code = 41

abbrev pub queue_upload_code : ℕ
queue_upload_code = 43

abbrev pub place_in_queue_response_code : ℕ
place_in_queue_response_code = 44

abbrev pub upload_failed_code : ℕ
upload_failed_code = 46

abbrev pub upload_denied_code : ℕ
upload_denied_code = 50

abbrev pub place_in_queue_request_code : ℕ
place_in_queue_request_code = 51

abbrev pub distributed_search_code : ℕ
distributed_search_code = 3

abbrev pub distributed_branch_level_code : ℕ
distributed_branch_level_code = 4

abbrev pub distributed_branch_root_code : ℕ
distributed_branch_root_code = 5

abbrev pub distributed_embedded_code : ℕ
distributed_embedded_code = 93

abbrev pub experimental_major_version : ℕ
experimental_major_version = 177

abbrev pub forever_minor_version : ℕ
forever_minor_version = 3

abbrev pub max_message_length : ℕ
max_message_length = 16 * 1024 * 1024

abbrev pub max_peer_message_length : ℕ
max_peer_message_length = 64 * 1024 * 1024

abbrev pub max_profile_message_length : ℕ
max_profile_message_length = 3 * 1024 * 1024

abbrev pub max_peer_init_length : ℕ
max_peer_init_length = 64 * 1024

abbrev pub max_distributed_message_length : ℕ
max_distributed_message_length = 16 * 1024

abbrev pub max_possible_parents : ℕ
max_possible_parents = 10

abbrev pub max_network_username_bytes : ℕ
max_network_username_bytes = 100

abbrev pub max_distributed_query_bytes : ℕ
max_distributed_query_bytes = 250

abbrev pub max_decompressed_search_length : ℕ
max_decompressed_search_length = 64 * 1024 * 1024

abbrev pub max_decompressed_folder_length : ℕ
max_decompressed_folder_length = 64 * 1024 * 1024

abbrev pub max_decompressed_share_length : ℕ
max_decompressed_share_length = 256 * 1024 * 1024

abbrev pub max_results_per_response : ℕ
max_results_per_response = 20_000

abbrev pub max_folders_per_response : ℕ
max_folders_per_response = 5_000

abbrev pub max_files_per_folder : ℕ
max_files_per_folder = 20_000

abbrev pub max_folder_files_total : ℕ
max_folder_files_total = 50_000

abbrev pub max_share_directories : ℕ
max_share_directories = 100_000

abbrev pub max_share_files_total : ℕ
max_share_files_total = 500_000

abbrev pub max_file_attributes : ℕ
max_file_attributes = 64

abbrev pub max_profile_description_bytes : ℕ
max_profile_description_bytes = 8 * 1024

abbrev pub max_profile_picture_bytes : ℕ
max_profile_picture_bytes = 2 * 1024 * 1024

abbrev pub max_user_interests : ℕ
max_user_interests = 500

abbrev pub max_user_interest_bytes : ℕ
max_user_interest_bytes = 250

abbrev pub max_private_message_bytes : ℕ
max_private_message_bytes = 8 * 1024

abbrev pub max_room_name_bytes : ℕ
max_room_name_bytes = 24

abbrev pub max_room_message_bytes : ℕ
max_room_message_bytes = 4 * 1024

abbrev pub max_room_list : ℕ
max_room_list = 5_000

abbrev pub max_room_members : ℕ
max_room_members = 5_000

abbrev pub max_excluded_phrases : ℕ
max_excluded_phrases = 10_000

abbrev pub max_excluded_phrase_bytes : ℕ
max_excluded_phrase_bytes = 4 * 1024
