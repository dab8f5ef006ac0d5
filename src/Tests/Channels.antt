-- ===== src/Tests/Channels.antt =====
-- Tests of the channel list.
use haze.Base.{◌≡◌, refl, [], true}
use haze.Memory.{alloc, realloc}
use haze.Audio.{is_ok}
use haze.Audio.Channels.{ChannelList, channels_add}
use haze.Tests.{ample}

abbrev empty_list : ChannelList
empty_list = record { channels = [] }

channel_added : is_ok (channels_add true empty_list ample).0.0 ≡ true
unfolding channels_add is_ok alloc realloc
channel_added = refl
