-- ===== src/Tests/Events.antt =====
-- The theorems on internal/event at a bus with two channels.
use go_p2p_messenger.Base.{codes}
use go_p2p_messenger.Event.{
  Bus, Payload, capacity, new_bus, publish, subscribe, receive, listens, topic_new_message,
  topic_new_contact, topic_sync_status,
}
use go_p2p_messenger.Event
use go_p2p_messenger.Event.Invariant.{IsValid, new_bus-IsValid, subscribe-IsValid}

abbrev contact : Payload
contact = Event.string (codes "carol")

-- Channel 0 listens to new messages and channel 1 to new contacts.
abbrev watched : Bus
watched = (subscribe topic_new_contact (subscribe topic_new_message new_bus).1).1

watched-IsValid : IsValid watched
watched-IsValid =
    subscribe-IsValid topic_new_contact (subscribe topic_new_message new_bus).1
      (subscribe-IsValid topic_new_message new_bus new_bus-IsValid)
